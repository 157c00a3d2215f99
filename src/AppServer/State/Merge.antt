-- ===== src/AppServer/State/Merge.antt =====
-- crates/adapters-codex-app-server/src/state.rs: merging the sparse notifications of the account,
-- the rate limits and the token counts.
use codex_quota_glance.Prelude.{
  if◌then◌else◌, [], ◌∷◌, Option, none, some, or_else, unwrap_or, String, ◌>>=◌,
}
use codex_quota_glance.Prelude.F32.{F32}
use codex_quota_glance.Domain.Usage.{TokenCounts}
use codex_quota_glance.AppServer.Json.{Json, get_first, number_i64}
use codex_quota_glance.AppServer.Patches.{
  TokenUsageUpdate, merge_number, merge_token_counts, merge_domain_token_counts,
  merge_rate_limit_window,
}
use codex_quota_glance.AppServer.State.{
  AccountSnapshot, RateLimitsSnapshot, object_of, nested, found, merge_whole,
}

abbrev pub no_counts : TokenCounts
no_counts = record {
  input = none;
  cached_input = none;
  cache_write_input = none;
  output = none;
  reasoning_output = none;
  total = none;
}

module _ {V : Type 0} ⦃j : Json V⦄ where
  merge_fields : AccountSnapshot V → Option V → AccountSnapshot V
  merge_fields a none = a
  merge_fields a (some object) = record a { fields = merge_whole a.fields object }

  unfoldable pub merge_account : AccountSnapshot V → V → AccountSnapshot V
  unfolding merge_fields
  merge_account a update =
      let auth = found update ("requiresOpenaiAuth" ∷ "requires_openai_auth" ∷ []) >>= j.as_bool in
      merge_fields (record a { requires_openai_auth = or_else auth a.requires_openai_auth })
        (nested update "account")

  -- `raw` is kept if it is an object.
  abbrev pub object_or_empty : V → V
  object_or_empty v = if j.is_object v then v else j.empty_object

  abbrev pub new_token_usage : TokenUsageUpdate V
  new_token_usage = record {
    thread_id = none;
    input_tokens = none;
    cached_input_tokens = none;
    cache_write_input_tokens = none;
    output_tokens = none;
    reasoning_output_tokens = none;
    total_tokens = none;
    last = none;
    model_context_window = none;
    observed_at_unix_ms = none;
    raw = j.null_value;
  }

  unfoldable pub merge_counts_of : TokenUsageUpdate V → Option V → TokenUsageUpdate V
  merge_counts_of u none = u
  merge_counts_of u (some object) = merge_token_counts u object

  unfoldable pub merge_last : TokenUsageUpdate V → Option V → TokenUsageUpdate V
  merge_last u none = u
  merge_last u (some object) = record u {
    last = some (merge_domain_token_counts (unwrap_or u.last no_counts) object);
  }

  -- The outer counts, then those under `usage`, then the totals, which win.
  unfoldable pub merge_token_object : TokenUsageUpdate V → V → TokenUsageUpdate V
  merge_token_object u object =
      let named = record u {
        thread_id =
            or_else (get_first ("threadId" ∷ "thread_id" ∷ []) object >>= j.as_str) u.thread_id;
      } in
      let outer = merge_token_counts named object in
      let used = merge_counts_of outer (object_of (j.get "usage" object)) in
      let totals =
        object_of (get_first ("total" ∷ "totalTokenUsage" ∷ "total_token_usage" ∷ []) object) in
      let last =
        object_of (get_first ("last" ∷ "lastTokenUsage" ∷ "last_token_usage" ∷ []) object) in
      let counted = merge_last (merge_counts_of used totals) last in
      record counted {
        model_context_window =
            merge_number counted.model_context_window object
              ("modelContextWindow" ∷ "model_context_window" ∷ []);
        raw = merge_whole (object_or_empty counted.raw) object;
      }

  -- The thread id in the parameters, or beside them.
  abbrev pub outer_thread_id : V → Option String
  outer_thread_id update =
      or_else (j.get "params" update >>= get_first ("threadId" ∷ "thread_id" ∷ []) >>= j.as_str)
        (get_first ("threadId" ∷ "thread_id" ∷ []) update >>= j.as_str)

  merge_token_found :
      Option (TokenUsageUpdate V) → Option String → Option V → Option (TokenUsageUpdate V)
  merge_token_found existing outer none = existing
  merge_token_found existing outer (some object) =
      let u = unwrap_or existing new_token_usage in
      some (merge_token_object (record u { thread_id = or_else outer u.thread_id }) object)

  unfoldable pub merge_token_usage : Option (TokenUsageUpdate V) → V → Option (TokenUsageUpdate V)
  unfolding merge_token_found
  merge_token_usage existing update = merge_token_found existing (outer_thread_id update) (
      or_else (nested update "tokenUsage") (
        or_else (nested update "token_usage")
          (or_else (object_of (j.get "params" update)) (object_of (some update)))))

module _ {V P : Type 0} ⦃j : Json V⦄ ⦃f : F32 P⦄ (as_percent : V → Option P) where
  merge_limits_of : RateLimitsSnapshot V P → Option V → RateLimitsSnapshot V P
  merge_limits_of r none = r
  merge_limits_of r (some object) = record r {
    primary = merge_rate_limit_window as_percent r.primary (j.get "primary" object);
    secondary = merge_rate_limit_window as_percent r.secondary (j.get "secondary" object);
    updated_at_unix_ms =
        or_else (get_first ("updatedAt" ∷ "updated_at" ∷ []) object >>= number_i64)
          r.updated_at_unix_ms;
    raw = merge_whole r.raw object;
  }

  unfoldable pub merge_rate_limits : RateLimitsSnapshot V P → V → RateLimitsSnapshot V P
  unfolding merge_limits_of
  merge_rate_limits r update =
      merge_limits_of r (or_else (nested update "rateLimits") (nested update "rate_limits"))
