-- ===== src/Application/Ledger/Tests.antt =====
-- The Rust tests of local_usage_ledger.rs, and the theorems at concrete inputs.
use codex_quota_glance.Prelude.{◌≡◌, List, [], ◌∷◌, none, some, true, arith}
use codex_quota_glance.Prelude.Int.{pos}
use codex_quota_glance.Domain.Usage.{TokenCounts, no_counts}
use codex_quota_glance.Prelude.OrdMap.{lookup}
use codex_quota_glance.Application.Ledger.Books.{baseline}
use codex_quota_glance.Application.Ledger.Day.{UsageDay, empty_day}
use codex_quota_glance.Application.Ledger.Books.{
  LocalUsageClock, LocalUsageLedger, default_ledger, Event, observe,
}
use codex_quota_glance.Application.Ledger.Invariant.{
  Operation, observes, replaces, retains, saves, IsLedger, operate_all, operate_all-default,
}
use codex_quota_glance.Application.Ledger.Today.{observe-rises, frames}

abbrev noon : LocalUsageClock
noon = record { day_key = pos 100; hour = 12 }

abbrev turn_counts : TokenCounts
turn_counts = record no_counts { input = some 100; cached_input = some 80; output = some 20 }

abbrev scan : List Event
scan = (12, turn_counts, some 7) ∷ (30, turn_counts, none) ∷ []

abbrev operations : List Operation
operations =
    observes noon (frames "t" (100 ∷ 130 ∷ 20 ∷ 50 ∷ []))
    ∷ replaces (pos 99) scan
    ∷ retains 1
    ∷ saves
    ∷ []

operate_all-default_example : IsLedger (operate_all default_ledger operations)
operate_all-default_example = operate_all-default operations

observe-rises_example :
    (observe default_ledger noon (frames "t" (100 ∷ 130 ∷ 20 ∷ 50 ∷ []))).1 ≡ true
unfolding lookup baseline
observe-rises_example =
    (observe-rises default_ledger noon "t" (100 ∷ 130 ∷ 20 ∷ 50 ∷ []) (omega arith) (omega arith)).0

abbrev detailed_day : UsageDay
detailed_day = record empty_day { total_tokens = 12; input_tokens = 10; output_tokens = 2 }

abbrev one_day : LocalUsageLedger
one_day = record default_ledger { days = (pos 100, detailed_day) ∷ [] }
