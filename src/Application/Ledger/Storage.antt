-- ===== src/Application/Ledger/Storage.antt =====
-- crates/application/src/local_usage_ledger.rs: the JSON projection of the ledger, and its reading.
use codex_quota_glance.Prelude.{ℕ, ltb, if◌then◌else◌, List, [], ◌∷◌, false, ◌||◌}
use codex_quota_glance.Prelude.Words.{saturating_add}
use codex_quota_glance.Prelude.OrdMap.{insert, keep_last}
use codex_quota_glance.Application.Ledger.Day.{UsageDay}
use codex_quota_glance.Application.Ledger.Books.{Days, LocalUsageLedger, max_retained_days}

-- `PersistedUsageDay` has the fields of a day and its key.
pub record PersistedLocalUsageLedger : Type 0 where
  pub version : ℕ
  pub days : Days

abbrev pub version : ℕ
version = 3

unfoldable pub persisted : LocalUsageLedger → PersistedLocalUsageLedger
persisted l = record { version = version; days = l.days }

-- Input and output decide a total wherever one of them is known.
unfoldable pub canonical_total : (input output total : ℕ) → ℕ
canonical_total input output total =
    if ltb 0 input || ltb 0 output then saturating_add input output else total

-- The loop over the 24 hours, over three arrays of one length.
unfoldable pub canonical_hours : (inputs outputs totals : List ℕ) → List ℕ
unfolding canonical_total
canonical_hours (i ∷ is) (o ∷ os) (t ∷ ts) = canonical_total i o t ∷ canonical_hours is os ts
canonical_hours _ _ ts = ts

unfoldable pub canonical_day : UsageDay → UsageDay
unfolding canonical_total canonical_hours
canonical_day d = record d {
  total_tokens = canonical_total d.input_tokens d.output_tokens d.total_tokens;
  hourly_tokens = canonical_hours d.hourly_input_tokens d.hourly_output_tokens d.hourly_tokens;
}

-- `collect::<BTreeMap>`: a later entry replaces an earlier one of its key.
unfoldable pub collect : Days → Days → Days
collect m [] = m
collect m ((k, d) ∷ ds) = collect (insert k (canonical_day d) m) ds

unfoldable pub from_persisted : PersistedLocalUsageLedger → LocalUsageLedger
unfolding collect
from_persisted p = record {
  baselines = [];
  days = keep_last max_retained_days (collect [] p.days);
  dirty = false;
  retained_days = 90;
}
