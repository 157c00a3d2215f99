-- ===== src/AppServer/Patches.antt =====
-- crates/adapters-codex-app-server/src/state.rs: sparse notifications, which are merged field by
-- field; a field that is missing or null changes nothing.
pub mod Sparse
pub mod Agreement
use codex_quota_glance.Prelude.{
  ℕ, if◌then◌else◌, leb, List, [], ◌∷◌, Option, none, some, Bool, true, false, not, or_else,
  unwrap_or, String, ◌>>=◌,
}
use codex_quota_glance.Prelude.Int.{ℤ}
use codex_quota_glance.Prelude.F32.{F32}
use codex_quota_glance.Domain.Usage.{TokenCounts}
use codex_quota_glance.Domain.Official.{OfficialCredits}
use codex_quota_glance.AppServer.Json.{Json, get_first, number_u32, number_i64}
use codex_quota_glance.AppServer.RateLimits.{RateLimitWindow}

-- The thread's counts in `TokenUsageUpdate`.
pub record TokenUsageUpdate (V : Type 0) : Type 0 where
  pub thread_id : Option String
  pub input_tokens : Option ℕ
  pub cached_input_tokens : Option ℕ
  pub cache_write_input_tokens : Option ℕ
  pub output_tokens : Option ℕ
  pub reasoning_output_tokens : Option ℕ
  pub total_tokens : Option ℕ
  pub last : Option TokenCounts
  pub model_context_window : Option ℕ
  pub observed_at_unix_ms : Option ℤ
  pub raw : V

module _ {V : Type 0} ⦃j : Json V⦄ where
  -- The first key with a number wins; with none the target stays.
  unfoldable pub merge_number : Option ℕ → V → List String → Option ℕ
  merge_number target object [] = target
  merge_number target object (k ∷ ks) =
      or_else (j.get k object >>= j.as_u64) (merge_number target object ks)

  unfoldable pub merge_token_counts : TokenUsageUpdate V → V → TokenUsageUpdate V
  merge_token_counts u object = record u {
    input_tokens = merge_number u.input_tokens object ("inputTokens" ∷ "input_tokens" ∷ []);
    cached_input_tokens =
        merge_number u.cached_input_tokens object
          ("cachedInputTokens" ∷ "cached_input_tokens" ∷ []);
    cache_write_input_tokens =
        merge_number u.cache_write_input_tokens object
          ("cacheWriteInputTokens" ∷ "cache_write_input_tokens" ∷ []);
    output_tokens = merge_number u.output_tokens object ("outputTokens" ∷ "output_tokens" ∷ []);
    reasoning_output_tokens =
        merge_number u.reasoning_output_tokens object
          ("reasoningOutputTokens" ∷ "reasoning_output_tokens" ∷ []);
    total_tokens = merge_number u.total_tokens object ("totalTokens" ∷ "total_tokens" ∷ []);
  }

  unfoldable pub merge_domain_token_counts : TokenCounts → V → TokenCounts
  merge_domain_token_counts c object = record c {
    input = merge_number c.input object ("inputTokens" ∷ "input_tokens" ∷ []);
    cached_input =
        merge_number c.cached_input object ("cachedInputTokens" ∷ "cached_input_tokens" ∷ []);
    cache_write_input =
        merge_number c.cache_write_input object
          ("cacheWriteInputTokens" ∷ "cache_write_input_tokens" ∷ []);
    output = merge_number c.output object ("outputTokens" ∷ "output_tokens" ∷ []);
    reasoning_output =
        merge_number c.reasoning_output object
          ("reasoningOutputTokens" ∷ "reasoning_output_tokens" ∷ []);
    total = merge_number c.total object ("totalTokens" ∷ "total_tokens" ∷ []);
  }

  credits_of : V → Option Bool → Option OfficialCredits
  credits_of object none = none
  credits_of object (some has_credits) = some (record {
    has_credits = has_credits;
    unlimited = unwrap_or (j.get "unlimited" object >>= j.as_bool) false;
    balance = j.get "balance" object >>= j.as_str;
  })

  unfoldable pub parse_credits : V → Option OfficialCredits
  unfolding credits_of
  parse_credits v =
      if j.is_object v
      then credits_of v (get_first ("hasCredits" ∷ "has_credits" ∷ []) v >>= j.as_bool)
      else none

module _ {V P : Type 0} ⦃j : Json V⦄ ⦃f : F32 P⦄ (as_percent : V → Option P) where
  -- `get_or_insert_with`: a new window starts without a duration.
  abbrev pub window_or_new : Option (RateLimitWindow P) → RateLimitWindow P
  window_or_new existing =
      unwrap_or existing
        (record { used_percent = f.zero_percent; window_duration_mins = 0; resets_at_unix = none })

  merge_fields : RateLimitWindow P → V → RateLimitWindow P
  merge_fields w object = record {
    used_percent =
        unwrap_or (get_first ("usedPercent" ∷ "used_percent" ∷ []) object >>= as_percent)
          w.used_percent;
    window_duration_mins =
        unwrap_or
          (get_first ("windowDurationMins" ∷ "window_duration_mins" ∷ []) object >>= number_u32)
          w.window_duration_mins;
    resets_at_unix =
        or_else
          (get_first ("resetsAt" ∷ "resets_at" ∷ "resetsAtUnix" ∷ "resets_at_unix" ∷ []) object
            >>= number_i64)
          w.resets_at_unix;
  }

  unfoldable pub merge_rate_limit_window :
      Option (RateLimitWindow P) → Option V → Option (RateLimitWindow P)
  unfolding merge_fields
  merge_rate_limit_window existing none = existing
  merge_rate_limit_window existing (some v) =
      if not (j.is_object v)
      then existing
      else if j.is_null v
      then existing
      else some (merge_fields (window_or_new existing) v)
