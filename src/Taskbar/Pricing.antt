-- ===== src/Taskbar/Pricing.antt =====
-- apps/codex-taskbar/src/lib.rs: what tokens would cost at the prices of the official API.
mod Tests
use codex_quota_glance.Prelude.{
  ℕ, ◌+◌, ◌-◌, ◌*◌, ◌/◌, ltb, leb, min, if◌then◌else◌, List, [], ◌∷◌, Option, none, some, Bool,
  false, String, unwrap_or, ◌>>=◌,
}
use codex_quota_glance.Prelude.Text.{codes, lower, trim, same_codes}
use codex_quota_glance.Prelude.Words.{u64_max}
use codex_quota_glance.Domain.Usage.{TokenCounts}

record OfficialApiPricing : Type 0 where
  pub model : String
  pub input_micro_usd_per_million : ℕ
  pub cached_input_micro_usd_per_million : ℕ
  pub cache_write_input_micro_usd_per_million : Option ℕ
  pub output_micro_usd_per_million : ℕ
  pub long_context_threshold_tokens : Option ℕ

abbrev price :
    String
    → (input cached_input : ℕ) (cache_write : Option ℕ) (output : ℕ) (threshold : Option ℕ)
    → OfficialApiPricing
price model input cached_input cache_write output threshold = record {
  model = model;
  input_micro_usd_per_million = input;
  cached_input_micro_usd_per_million = cached_input;
  cache_write_input_micro_usd_per_million = cache_write;
  output_micro_usd_per_million = output;
  long_context_threshold_tokens = threshold;
}

-- The arms of the `match`, in order.
prices : List (String × OfficialApiPricing)
prices =
    ("gpt-5", price "gpt-5" 1250000 125000 none 10000000 none)
    ∷ ("gpt-5-chat-latest", price "gpt-5" 1250000 125000 none 10000000 none)
    ∷ ("gpt-5-mini", price "gpt-5-mini" 250000 25000 none 2000000 none)
    ∷ ("gpt-5-nano", price "gpt-5-nano" 50000 5000 none 400000 none)
    ∷ ("gpt-5.2", price "gpt-5.2" 1750000 175000 none 14000000 none)
    ∷ ("gpt-5.2-chat-latest", price "gpt-5.2" 1750000 175000 none 14000000 none)
    ∷ ("gpt-5.3-codex", price "gpt-5.3-codex" 1750000 175000 none 14000000 none)
    ∷ ("gpt-5.4", price "gpt-5.4" 2500000 250000 none 15000000 (some 272000))
    ∷ ("gpt-5.4-mini", price "gpt-5.4-mini" 750000 75000 none 4500000 none)
    ∷ ("gpt-5.5", price "gpt-5.5" 5000000 500000 none 30000000 (some 272000))
    ∷ ("gpt-5.6", price "gpt-5.6-sol" 4000000 400000 (some 5000000) 20000000 (some 272000))
    ∷ ("gpt-5.6-sol", price "gpt-5.6-sol" 4000000 400000 (some 5000000) 20000000 (some 272000))
    ∷ ("gpt-5.6-terra", price "gpt-5.6-terra" 2000000 200000 (some 2500000) 12000000 (some 272000))
    ∷ ("gpt-5.6-luna", price "gpt-5.6-luna" 200000 20000 (some 250000) 1200000 (some 272000))
    ∷ []

price_of : List ℕ → List (String × OfficialApiPricing) → Option OfficialApiPricing
price_of name [] = none
price_of name (p ∷ ps) =
    let rest = price_of name ps in if same_codes name (codes p.0) then some p.1 else rest

official_api_pricing : String → Option OfficialApiPricing
unfolding price_of prices
official_api_pricing model = price_of (lower (trim model)) prices

abbrev exceeds : ℕ → Option ℕ → Bool
exceeds input none = false
exceeds input (some threshold) = ltb threshold input

-- In 128 bits, which hold the products.
total_micro_usd : OfficialApiPricing → (input cached cache_write output : ℕ) → ℕ
total_micro_usd p input cached cache_write output =
    let hits = min cached input in
    let writes = min cache_write (input - hits) in
    let long = exceeds input p.long_context_threshold_tokens in
    let write_rate =
      unwrap_or p.cache_write_input_micro_usd_per_million p.input_micro_usd_per_million in
    let input_cost =
      ((input - hits - writes) * p.input_micro_usd_per_million
        + hits * p.cached_input_micro_usd_per_million
        + writes * write_rate)
      * (if long then 2 else 1) in
    let output_cost = output * p.output_micro_usd_per_million * (if long then 3 else 2) / 2 in
    (input_cost + output_cost) / 1000000

unfoldable pub official_api_equivalent_cost_micro_usd :
    TokenCounts → Option String → Option (ℕ × String)
unfolding total_micro_usd official_api_pricing
official_api_equivalent_cost_micro_usd counts model = do
  name ← model
  pricing ← official_api_pricing name
  input ← counts.input
  cached ← counts.cached_input
  output ← counts.output
  let total = total_micro_usd pricing input cached (unwrap_or counts.cache_write_input 0) output
  if leb total u64_max then some (total, pricing.model) else none
