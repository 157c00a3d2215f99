-- ===== src/Application/Ledger/Database/Tests.antt =====
-- The Rust test of a database with doubly counted cached tokens, and the theorem at its rows.
use codex_quota_glance.Prelude.{◌≡◌, refl, List, [], ◌∷◌, true}
use codex_quota_glance.Prelude.Int.{pos}
use codex_quota_glance.Prelude.Words.{saturating_add}
use codex_quota_glance.Prelude.OrdMap.{lookup, insert}
use codex_quota_glance.Application.Ledger.Books.{entry}
use codex_quota_glance.Application.Ledger.Storage.{canonical_total}
use codex_quota_glance.Application.Ledger.Database.{UsageRow, HourlyRow, load_sqlite}
use codex_quota_glance.Application.Ledger.Database.Repair.{IsSound, load_sqlite-IsSound}

abbrev legacy : UsageRow
legacy = record { day_key = pos 10; total = 200; input = 100; hits = 120; output = 20; cost = 3 }

abbrev daily : List UsageRow
daily = legacy ∷ []

abbrev hourly : List HourlyRow
hourly = (8, legacy) ∷ []

legacy_repaired :
    ((entry (pos 10) (load_sqlite daily hourly).days).total_tokens ≡ 120)
    × ((load_sqlite daily hourly).dirty ≡ true)
unfolding load_sqlite canonical_total saturating_add lookup insert
legacy_repaired = (refl, refl)

load_sqlite-IsSound_example : IsSound (load_sqlite daily hourly).days
load_sqlite-IsSound_example = load_sqlite-IsSound daily hourly
