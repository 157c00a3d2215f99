-- ===== src/Application/Ledger/Database/Repair.antt =====
-- Loading repairs what old versions wrote.
use codex_quota_glance.Prelude.{ℕ, ◌≤◌, ◌≡◌, List, [], ◌∷◌, Option, none, some, Bool, false, arith}
use codex_quota_glance.Prelude.Int.{ℤ}
use codex_quota_glance.Prelude.OrdMap.{
  lookup, insert, IsSorted, Values, Default, insert-Values, insert-IsSorted, lookup-Values,
}
use codex_quota_glance.Application.Ledger.Day.{UsageDay}
use codex_quota_glance.Application.Ledger.Books.{Days, bucket}
use codex_quota_glance.Application.Ledger.Storage.{canonical_total}
use codex_quota_glance.Application.Ledger.Database.{
  UsageRow, HourlyRow, day_of, load_days, set_hour, load_hour, load_hours, load_sqlite,
}

-- The cached tokens are part of the input, and the total is what its parts decide.
pub record IsRepaired (d : UsageDay) : Type 0 where
  pub hits_within : d.cached_input_tokens ≤ d.input_tokens
  pub whole : d.total_tokens ≡ canonical_total d.input_tokens d.output_tokens d.total_tokens

-- The days are sorted and repaired.
pub record IsSound (days : Days) : Type 0 where
  pub sorted : IsSorted days
  pub repaired : Values IsRepaired days

day_of-IsRepaired : (r : UsageRow) → IsRepaired (day_of r)
unfolding day_of canonical_total
day_of-IsRepaired r = ground arith

set_hour-IsRepaired :
    (d : UsageDay) (i : ℕ) (r : UsageRow) → IsRepaired d → IsRepaired (set_hour d i r)
unfolding set_hour
set_hour-IsRepaired d i r v = record { hits_within = v.hits_within; whole = v.whole }

insert-IsSound :
    (k : ℤ) (d : UsageDay) (days : Days) → IsRepaired d → IsSound days → IsSound (insert k d days)
insert-IsSound k d days h v = record {
  sorted = insert-IsSorted k d days v.sorted;
  repaired = insert-Values IsRepaired k d days h v.repaired;
}

load_days-IsSound :
    (days : Days) (b : Bool) (rows : List UsageRow)
    → IsSound days
    → IsSound (load_days (days, b) rows).0
unfolding load_days
load_days-IsSound days b [] v = v
load_days-IsSound days b (r ∷ rows) v =
    load_days-IsSound (insert r.day_key (day_of r) days) _ rows
      (insert-IsSound r.day_key (day_of r) days (day_of-IsRepaired r) v)

load_hour-IsSound :
    (loaded : Days × Bool) (row : HourlyRow) (o : Option UsageDay)
    → IsSound loaded.0
    → Default IsRepaired o
    → IsSound (load_hour loaded row o).0
unfolding load_hour
load_hour-IsSound loaded row none v h = v
load_hour-IsSound loaded row (some d) v h =
    insert-IsSound row.1.day_key (set_hour d (bucket row.0) row.1) loaded.0
      (set_hour-IsRepaired d (bucket row.0) row.1 h) v

load_hours-IsSound :
    (loaded : Days × Bool) (rows : List HourlyRow)
    → IsSound loaded.0
    → IsSound (load_hours loaded rows).0
unfolding load_hours
load_hours-IsSound loaded [] v = v
load_hours-IsSound loaded (row ∷ rows) v =
    let found = lookup row.1.day_key loaded.0 in
    load_hours-IsSound (load_hour loaded row found) rows (
      load_hour-IsSound loaded row found v
        (lookup-Values IsRepaired row.1.day_key loaded.0 v.repaired))

-- Whatever rows the database holds, also those of old versions that counted cached tokens twice,
-- the loaded days are sorted by key, the cached tokens of each are part of its input, and its total
-- is input plus output where one of them is known.
pub load_sqlite-IsSound :
    (daily : List UsageRow) (hourly : List HourlyRow) → IsSound (load_sqlite daily hourly).days
unfolding load_sqlite
load_sqlite-IsSound daily hourly =
    load_hours-IsSound (load_days ([], false) daily) hourly
      (load_days-IsSound [] false daily (record { sorted = tt; repaired = tt }))
