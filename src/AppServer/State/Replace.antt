-- ===== src/AppServer/State/Replace.antt =====
-- crates/adapters-codex-app-server/src/state.rs: the complete reads, which replace what was there.
use codex_quota_glance.Prelude.{
  if◌then◌else◌, List, [], ◌∷◌, Option, none, some, Bool, true, false, ◌&&◌, ◌||◌, or_else,
  unwrap_or, String, ◌>>=◌,
}
use codex_quota_glance.Prelude.F32.{F32}
use codex_quota_glance.Prelude.Text.{trim, is_empty, eq_ignore_ascii_case}
use codex_quota_glance.AppServer.Json.{Json, get_first, number_i64, contains_key}
use codex_quota_glance.AppServer.Activity.{first_text}
use codex_quota_glance.AppServer.Patches.{merge_rate_limit_window}
use codex_quota_glance.AppServer.State.{
  AccountSnapshot, AccountUsageSnapshot, RateLimitsSnapshot, object_of, found,
}

-- `filter(|value| !value.trim().is_empty())`.
unfoldable pub not_blank : Option String → Option String
not_blank none = none
not_blank (some s) = if is_empty (trim s) then none else some s

unfoldable pub is_codex : Option String → Bool
is_codex none = false
is_codex (some s) = eq_ignore_ascii_case s "codex"

module _ {V : Type 0} ⦃j : Json V⦄ where
  -- The first key with a text, unless that text is blank.
  unfoldable pub string_field : V → List String → Option String
  unfolding not_blank first_text
  string_field object keys = not_blank (first_text keys object)

  unfoldable pub replace_account : V → AccountSnapshot V
  replace_account response = record {
    fields = unwrap_or (object_of (found response ("account" ∷ []))) j.empty_object;
    requires_openai_auth =
        found response ("requiresOpenaiAuth" ∷ "requires_openai_auth" ∷ []) >>= j.as_bool;
  }

  payload_of : V → V
  payload_of v = unwrap_or (or_else (object_of (j.get "result" v)) (object_of (j.get "params" v))) v

  unfoldable pub payload_object : V → Option V
  unfolding payload_of
  payload_object v = if j.is_object v then some (payload_of v) else none

  -- The first object among the values whose limit id is `codex`.
  unfoldable pub find_codex : List (String × V) → Option V
  unfolding string_field is_codex
  find_codex [] = none
  find_codex ((key, value) ∷ members) =
      let rest = find_codex members in
      if j.is_object value && is_codex (string_field value ("limitId" ∷ "limit_id" ∷ []))
      then some value
      else rest

  codex_of : Option V → Option V
  unfolding find_codex
  codex_of none = none
  codex_of (some by_id) = or_else (object_of (j.get "codex" by_id)) (find_codex (j.members by_id))

  preferred_of : Option V → Option V
  unfolding codex_of
  preferred_of none = none
  preferred_of (some payload) =
      or_else
        (codex_of
          (object_of (get_first ("rateLimitsByLimitId" ∷ "rate_limits_by_limit_id" ∷ []) payload)))
        (object_of (get_first ("rateLimits" ∷ "rate_limits" ∷ []) payload))

  unfoldable pub preferred_rate_limit_object : V → Option V
  unfolding preferred_of payload_object
  preferred_rate_limit_object response = preferred_of (payload_object response)

  -- The flag says that the response was taken.
  unfoldable pub replace_account_usage :
      Option (AccountUsageSnapshot V) → V → Option (AccountUsageSnapshot V) × Bool
  replace_account_usage existing response =
      if j.is_object response
        && (contains_key "summary" response
            || (contains_key "dailyUsageBuckets" response
                || contains_key "daily_usage_buckets" response))
      then (some (record { raw = response }), true)
      else (existing, false)

module _ {V P : Type 0} ⦃j : Json V⦄ ⦃f : F32 P⦄ (as_percent : V → Option P) where
  unfoldable pub replace_limits_of :
      RateLimitsSnapshot V P → V → Option V → RateLimitsSnapshot V P × Bool
  replace_limits_of r response none = (r, false)
  replace_limits_of r response (some object) = (
    record {
      primary = merge_rate_limit_window as_percent none (j.get "primary" object);
      secondary = merge_rate_limit_window as_percent none (j.get "secondary" object);
      updated_at_unix_ms = get_first ("updatedAt" ∷ "updated_at" ∷ []) object >>= number_i64;
      raw = object;
      reset_credits_raw =
          found response ("rateLimitResetCredits" ∷ "rate_limit_reset_credits" ∷ []);
    },
    true,
  )

  unfoldable pub replace_rate_limits : RateLimitsSnapshot V P → V → RateLimitsSnapshot V P × Bool
  unfolding replace_limits_of preferred_rate_limit_object
  replace_rate_limits r response =
      replace_limits_of r response (preferred_rate_limit_object response)
