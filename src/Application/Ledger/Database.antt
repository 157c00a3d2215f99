-- ===== src/Application/Ledger/Database.antt =====
-- crates/application/src/local_usage_ledger.rs: the rows of the two SQLite tables. The database
-- itself is outside: a successful transaction leaves the rows written, and a query gives the rows
-- that are there, daily ones by key and hourly ones by key and hour.
pub mod Repair
mod Tests
use codex_quota_glance.Prelude.{
  ℕ, zero, suc, ◌+◌, min, ltb, ◌==◌, if◌then◌else◌, List, [], ◌∷◌, ◌++◌, map, get_or, set, Option,
  none, some, Bool, true, false, not, ◌&&◌, ◌||◌,
}
use codex_quota_glance.Prelude.Int.{ℤ}
use codex_quota_glance.Prelude.OrdMap.{lookup, insert}
use codex_quota_glance.Application.Ledger.Day.{UsageDay, empty_day}
use codex_quota_glance.Application.Ledger.Books.{Days, LocalUsageLedger, mark_persisted, bucket}
use codex_quota_glance.Application.Ledger.Storage.{canonical_total}

-- A row of `usage_daily`, and with its hour one of `usage_hourly`.
pub record UsageRow : Type 0 where
  pub day_key : ℤ
  pub total : ℕ
  pub input : ℕ
  pub hits : ℕ
  pub output : ℕ
  pub cost : ℕ

abbrev pub HourlyRow : Type 0
HourlyRow = ℕ × UsageRow

daily_row : ℤ × UsageDay → UsageRow
daily_row (k, d) = record {
  day_key = k;
  total = d.total_tokens;
  input = d.input_tokens;
  hits = d.cached_input_tokens;
  output = d.output_tokens;
  cost = d.estimated_api_cost_micro_usd;
}

hourly_row : ℤ → UsageDay → ℕ → UsageRow
hourly_row k d hour = record {
  day_key = k;
  total = get_or d.hourly_tokens hour 0;
  input = get_or d.hourly_input_tokens hour 0;
  hits = get_or d.hourly_cached_input_tokens hour 0;
  output = get_or d.hourly_output_tokens hour 0;
  cost = get_or d.hourly_estimated_api_cost_micro_usd hour 0;
}

-- The loop `for hour in 0..24`, from an hour on; an hour without tokens has no row.
hourly_rows : ℤ → UsageDay → (hour remaining : ℕ) → List HourlyRow
unfolding hourly_row
hourly_rows k d hour zero = []
hourly_rows k d hour (suc remaining) =
    let row = hourly_row k d hour in
    let rest = hourly_rows k d (suc hour) remaining in
    if row.total == 0 && (row.input == 0 && row.output == 0) then rest else (hour, row) ∷ rest

all_hourly_rows : Days → List HourlyRow
unfolding hourly_rows
all_hourly_rows [] = []
all_hourly_rows ((k, d) ∷ days) = hourly_rows k d 0 24 ++ all_hourly_rows days

-- The rows of a successful transaction, and the ledger after it.
pub save_sqlite : LocalUsageLedger → (List UsageRow × List HourlyRow) × LocalUsageLedger
unfolding daily_row all_hourly_rows
save_sqlite l = ((map daily_row l.days, all_hourly_rows l.days), mark_persisted l)

-- A row whose total or whose cached tokens an old version wrote wrong.
is_wrong : UsageRow → Bool
is_wrong r = not (canonical_total r.input r.output r.total == r.total) || ltb r.input r.hits

day_of : UsageRow → UsageDay
day_of r = record empty_day {
  total_tokens = canonical_total r.input r.output r.total;
  input_tokens = r.input;
  cached_input_tokens = min r.hits r.input;
  output_tokens = r.output;
  estimated_api_cost_micro_usd = r.cost;
}

-- The first loop: the days, and whether a row was repaired.
load_days : Days × Bool → List UsageRow → Days × Bool
unfolding is_wrong day_of
load_days (days, repaired) [] = (days, repaired)
load_days (days, repaired) (r ∷ rows) =
    load_days (insert r.day_key (day_of r) days, repaired || is_wrong r) rows

set_hour : UsageDay → ℕ → UsageRow → UsageDay
set_hour d index r = record d {
  hourly_tokens = set d.hourly_tokens index (canonical_total r.input r.output r.total);
  hourly_input_tokens = set d.hourly_input_tokens index r.input;
  hourly_cached_input_tokens = set d.hourly_cached_input_tokens index (min r.hits r.input);
  hourly_output_tokens = set d.hourly_output_tokens index r.output;
  hourly_estimated_api_cost_micro_usd = set d.hourly_estimated_api_cost_micro_usd index r.cost;
}

-- One pass of the second loop: a row of a day that is not there is skipped.
load_hour : Days × Bool → HourlyRow → Option UsageDay → Days × Bool
unfolding is_wrong set_hour
load_hour (days, repaired) (hour, r) none = (days, repaired)
load_hour (days, repaired) (hour, r) (some d) =
    (insert r.day_key (set_hour d (bucket hour) r) days, repaired || is_wrong r)

load_hours : Days × Bool → List HourlyRow → Days × Bool
unfolding load_hour
load_hours loaded [] = loaded
load_hours loaded (row ∷ rows) =
    load_hours (load_hour loaded row (lookup row.1.day_key loaded.0)) rows

pub load_sqlite : List UsageRow → List HourlyRow → LocalUsageLedger
unfolding load_days load_hours
load_sqlite daily hourly =
    let (days, repaired) = load_hours (load_days ([], false) daily) hourly in
    record { baselines = []; days = days; dirty = repaired; retained_days = 90 }
