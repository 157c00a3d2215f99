-- ===== src/AppServer/Patches/Agreement.antt =====
-- The two mergers of token counts, of a thread's total and of its last turn, agree.
use codex_quota_glance.Prelude.{ℕ, ◌≡◌, refl, List, [], ◌∷◌, Option, String, arith}
use codex_quota_glance.Domain.Usage.{TokenCounts}
use codex_quota_glance.AppServer.Json.{Json}
use codex_quota_glance.AppServer.Patches.{
  TokenUsageUpdate, merge_number, merge_token_counts, merge_domain_token_counts,
}

module _ {V : Type 0} ⦃j : Json V⦄ where
  -- The thread's counts as the domain's.
  abbrev pub counts_of : TokenUsageUpdate V → TokenCounts
  counts_of u = record {
    input = u.input_tokens;
    cached_input = u.cached_input_tokens;
    cache_write_input = u.cache_write_input_tokens;
    output = u.output_tokens;
    reasoning_output = u.reasoning_output_tokens;
    total = u.total_tokens;
  }

  merge_number_idem :
      (target : Option ℕ) (object : V) (ks : List String)
      → merge_number (merge_number target object ks) object ks ≡ merge_number target object ks
  unfolding merge_number
  merge_number_idem target object [] = refl
  merge_number_idem target object (k ∷ ks) = ground (arith, merge_number_idem target object ks)

  merge_domain_idem :
      (c : TokenCounts) (object : V)
      → merge_domain_token_counts (merge_domain_token_counts c object) object
        ≡ merge_domain_token_counts c object
  unfolding merge_domain_token_counts
  merge_domain_idem c object = λ i. record c {
    input = merge_number_idem c.input object ("inputTokens" ∷ "input_tokens" ∷ []) i;
    cached_input =
        merge_number_idem c.cached_input object ("cachedInputTokens" ∷ "cached_input_tokens" ∷ [])
          i;
    cache_write_input =
        merge_number_idem c.cache_write_input object
          ("cacheWriteInputTokens" ∷ "cache_write_input_tokens" ∷ []) i;
    output = merge_number_idem c.output object ("outputTokens" ∷ "output_tokens" ∷ []) i;
    reasoning_output =
        merge_number_idem c.reasoning_output object
          ("reasoningOutputTokens" ∷ "reasoning_output_tokens" ∷ []) i;
    total = merge_number_idem c.total object ("totalTokens" ∷ "total_tokens" ∷ []) i;
  }

  -- Merging a thread's totals is merging the counts of the domain, and merging the same object twice
  -- counts it once.
  merge_token_counts_lem :
      (u : TokenUsageUpdate V) (object : V)
      → (counts_of (merge_token_counts u object) ≡ merge_domain_token_counts (counts_of u) object)
        × (merge_domain_token_counts (merge_domain_token_counts (counts_of u) object) object
            ≡ merge_domain_token_counts (counts_of u) object)
  unfolding merge_token_counts merge_domain_token_counts
  merge_token_counts_lem u object = (refl, merge_domain_idem (counts_of u) object)
