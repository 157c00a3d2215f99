-- ===== src/AppServer/RateLimits.antt =====
-- crates/adapters-codex-app-server/src/quota.rs: the response with the rate limits, from decoded
-- JSON to the snapshot of the application.
pub mod Classification
pub mod Search
mod Tests
use codex_quota_glance.Prelude.{
  ℕ, zero, suc, ◌==◌, if◌then◌else◌, List, [], ◌∷◌, Option, none, some, Bool, true, false, not,
  ◌&&◌, ◌||◌, is_some, or_else, unwrap_or, String, ◌>>=◌,
}
use codex_quota_glance.Prelude.Int.{ℤ}
use codex_quota_glance.Prelude.F32.{F32}
use codex_quota_glance.Prelude.Results.{Result, ok, err, ok_or}
use codex_quota_glance.Domain.Quota.{QuotaValue, from_used_percent}
use codex_quota_glance.Application.Snapshots.{RateLimitSnapshot}
use codex_quota_glance.AppServer.Json.{Json, contains_key, get_first, number_u32, number_i64}

pub data RateLimitError : Type 0 where
  invalid_json : String → RateLimitError
  missing_rate_limits invalid_window invalid_window_duration : RateLimitError

pub record RateLimitWindow (P : Type 0) : Type 0 where
  pub used_percent : P
  pub window_duration_mins : ℕ
  pub resets_at_unix : Option ℤ

pub record RateLimitResponse (V P : Type 0) : Type 0 where
  pub primary : Option (RateLimitWindow P)
  pub secondary : Option (RateLimitWindow P)
  pub raw : Option V

abbrev pub Windows : Type 0 → Type 0
Windows P = Option (QuotaValue P) × Option (QuotaValue P)

module _ {P : Type 0} ⦃f : F32 P⦄ where
  abbrev pub quota_value : RateLimitWindow P → QuotaValue P
  quota_value w = from_used_percent w.used_percent (some w.window_duration_mins) w.resets_at_unix

  -- One pass of the `for` loop over the windows that are there.
  unfoldable pub classify : Windows P → Option (RateLimitWindow P) → Windows P
  classify found none = found
  classify (five_hour, weekly) (some w) =
      if w.window_duration_mins == 300 && not (is_some five_hour)
      then (some (quota_value w), weekly)
      else if w.window_duration_mins == 10_080 && not (is_some weekly)
      then (five_hour, some (quota_value w))
      else (five_hour, weekly)

  unfoldable pub snapshot_of :
      (primary secondary : Option (RateLimitWindow P)) → ℤ → ℕ → RateLimitSnapshot P
  unfolding classify
  snapshot_of primary secondary observed_at revision =
      let (five_hour, weekly) = classify (classify (none, none) primary) secondary in
      record {
        five_hour = five_hour;
        weekly = weekly;
        observed_at_unix_ms = observed_at;
        revision = revision;
      }

  unfoldable pub snapshot : {V : Type 0} → RateLimitResponse V P → ℤ → ℕ → RateLimitSnapshot P
  unfolding snapshot_of
  snapshot r observed_at revision = snapshot_of r.primary r.secondary observed_at revision

-- The `for` loop over the keys: the first of the children in which the search finds something.
search_keys : {V : Type 0} → Json V → (V → Option V) → List String → V → Option V
search_keys j search [] v = none
search_keys j search (k ∷ ks) v = or_else (j.get k v >>= search) (search_keys j search ks v)

module _ {V : Type 0} ⦃j : Json V⦄ where
  -- A search into nested objects, on fuel.
  pub find_rate_limits_object : ℕ → V → Option V
  unfolding search_keys
  find_rate_limits_object zero v = none
  find_rate_limits_object (suc fuel) v =
      if not (j.is_object v)
      then none
      else if contains_key "primary" v || contains_key "secondary" v
      then some v
      else search_keys j (find_rate_limits_object fuel)
          ("rateLimits" ∷ "rate_limits" ∷ "result" ∷ "params" ∷ []) v

-- `as_percent` is `as_f64` followed by the cast to `f32`.
module _ {V P : Type 0} ⦃j : Json V⦄ ⦃f : F32 P⦄ (as_percent : V → Option P) where
  window_of : V → (duration : ℕ) → RateLimitWindow P
  window_of v duration = record {
    used_percent =
        unwrap_or (get_first ("usedPercent" ∷ "used_percent" ∷ []) v >>= as_percent) f.zero_percent;
    window_duration_mins = duration;
    resets_at_unix =
        get_first ("resetsAt" ∷ "resets_at" ∷ "resetsAtUnix" ∷ "resets_at_unix" ∷ []) v
        >>= number_i64;
  }

  with_duration : V → Option V → Result RateLimitError (Option (RateLimitWindow P))
  unfolding window_of
  with_duration v none = ok (some (window_of v 0))
  with_duration v (some d) = elim (number_u32 d) [
    | some duration ↦ ok (some (window_of v duration))
    | none ↦ err invalid_window_duration
  ]

  parse_window : Option V → Result RateLimitError (Option (RateLimitWindow P))
  unfolding with_duration
  parse_window none = ok none
  parse_window (some v) =
      if j.is_null v
      then ok none
      else if not (j.is_object v)
      then err invalid_window
      else with_duration v (get_first ("windowDurationMins" ∷ "window_duration_mins" ∷ []) v)

  both_windows :
      V
      → Result RateLimitError (Option (RateLimitWindow P))
      → Result RateLimitError (Option (RateLimitWindow P))
      → Result RateLimitError (RateLimitResponse V P)
  both_windows object (err e) secondary = err e
  both_windows object (ok primary) (err e) = err e
  both_windows object (ok primary) (ok secondary) =
      if not (is_some primary) && not (is_some secondary)
      then err missing_rate_limits
      else ok (record { primary = primary; secondary = secondary; raw = some object })

  parse_found : Option V → Result RateLimitError (RateLimitResponse V P)
  unfolding both_windows parse_window
  parse_found none = err missing_rate_limits
  parse_found (some object) =
      both_windows object (parse_window (j.get "primary" object))
        (parse_window (j.get "secondary" object))

  pub parse_rate_limits_value : V → Result RateLimitError (RateLimitResponse V P)
  unfolding find_rate_limits_object parse_found
  parse_rate_limits_value v = parse_found (find_rate_limits_object (suc (j.depth v)) v)
