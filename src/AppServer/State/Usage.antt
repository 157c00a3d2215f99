-- ===== src/AppServer/State/Usage.antt =====
-- crates/adapters-codex-app-server/src/state.rs: the account's usage, day by day and thread by
-- thread. `BTreeMap<String, u64>` is an association list in the order of the texts.
pub mod Days
use codex_quota_glance.Prelude.{
  ℕ, ◌-◌, ltb, ◌==◌, if◌then◌else◌, List, [], ◌∷◌, length, Option, none, some, Bool, true, false,
  ◌&&◌, ◌||◌, not, is_some, or_else, option_map, String, ◌>>=◌, zero, suc,
}
use codex_quota_glance.Prelude.Text.{codes, trim, is_empty, same_codes}
use codex_quota_glance.Domain.Official.{
  OfficialAccountUsage, OfficialDailyUsage, OfficialThreadUsage, OfficialThreadUsageGroup,
}
use codex_quota_glance.AppServer.Json.{Json, get_first}
use codex_quota_glance.AppServer.State.{AccountUsageSnapshot, object_of}
use codex_quota_glance.AppServer.State.Replace.{string_field, not_blank}
use codex_quota_glance.AppServer.State.Dates.{is_valid_iso_date, parse_u64}

abbrev pub max_daily_usage_buckets : ℕ
max_daily_usage_buckets = 90

-- The order of texts, by their characters.
unfoldable pub before : List ℕ → List ℕ → Bool
before [] [] = false
before [] (b ∷ bs) = true
before (a ∷ cs) [] = false
before (a ∷ cs) (b ∷ bs) = ltb a b || (a == b && before cs bs)

unfoldable pub insert_day : String → ℕ → List OfficialDailyUsage → List OfficialDailyUsage
unfolding before same_codes
insert_day date tokens [] = record { date = date; tokens = tokens } ∷ []
insert_day date tokens (day ∷ days) =
    if same_codes (codes date) (codes day.date)
    then record { date = date; tokens = tokens } ∷ days
    else if before (codes date) (codes day.date)
    then record { date = date; tokens = tokens } ∷ day ∷ days
    else day ∷ insert_day date tokens days

unfoldable pub skip : {A : Type 0} → ℕ → List A → List A
skip zero xs = xs
skip (suc n) [] = []
skip (suc n) (x ∷ xs) = skip n xs

unfoldable pub text_number : Option String → Option ℕ
text_number none = none
text_number (some s) = parse_u64 (codes s)

unfoldable pub insert_bucket :
    List OfficialDailyUsage → Option String → Option ℕ → List OfficialDailyUsage
insert_bucket days none tokens = days
insert_bucket days (some date) none = days
insert_bucket days (some date) (some tokens) =
    if is_valid_iso_date (codes (trim date)) then insert_day (trim date) tokens days else days

unfoldable pub last_days : List OfficialDailyUsage → List OfficialDailyUsage
last_days days = skip (length days - max_daily_usage_buckets) days

module _ {V : Type 0} ⦃j : Json V⦄ where
  unfoldable pub number_u64 : V → Option ℕ
  number_u64 v = or_else (j.as_u64 v) (text_number (j.as_str v))

  unfoldable pub numeric_field : V → List String → Option ℕ
  numeric_field object [] = none
  numeric_field object (k ∷ ks) = or_else (j.get k object >>= number_u64) (numeric_field object ks)

  -- What is no bucket is passed over.
  unfoldable pub take_bucket : List OfficialDailyUsage → V → List OfficialDailyUsage
  take_bucket days bucket =
      if j.is_object bucket
      then insert_bucket days (string_field bucket ("startDate" ∷ "start_date" ∷ "date" ∷ []))
          (numeric_field bucket ("tokens" ∷ "tokenCount" ∷ "token_count" ∷ []))
      else days

  -- The `for` loop over the buckets.
  unfoldable pub parse_buckets : List OfficialDailyUsage → List V → List OfficialDailyUsage
  parse_buckets days [] = days
  parse_buckets days (bucket ∷ buckets) = parse_buckets (take_bucket days bucket) buckets

  buckets_of : Option (List V) → List OfficialDailyUsage
  buckets_of none = []
  buckets_of (some buckets) = last_days (parse_buckets [] buckets)

  unfoldable pub parse_daily_usage_buckets : Option V → List OfficialDailyUsage
  unfolding buckets_of
  parse_daily_usage_buckets value = buckets_of (value >>= j.as_array)
