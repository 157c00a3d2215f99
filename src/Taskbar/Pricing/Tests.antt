-- ===== src/Taskbar/Pricing/Tests.antt =====
-- apps/codex-taskbar/src/lib.rs: the Rust tests of the prices.
use codex_quota_glance.Prelude.Text.{is_whitespace, lower, same_codes, trim}
use codex_quota_glance.Prelude.{ℕ, ◌≡◌, refl, none, some}
use codex_quota_glance.Domain.Usage.{TokenCounts}
use codex_quota_glance.Taskbar.Pricing.{official_api_equivalent_cost_micro_usd}

abbrev tokens : (input cached_input output : ℕ) → TokenCounts
tokens input cached_input output = record {
  input = some input;
  cached_input = some cached_input;
  cache_write_input = none;
  output = some output;
  reasoning_output = none;
  total = none;
}

standard_cost :
    official_api_equivalent_cost_micro_usd (tokens 100000 40000 10000) (some "gpt-5.6-terra")
    ≡ some (248000, "gpt-5.6-terra")
unfolding official_api_equivalent_cost_micro_usd same_codes lower trim is_whitespace
standard_cost = refl

long_context_cost :
    official_api_equivalent_cost_micro_usd (tokens 1000000 250000 100000) (some " GPT-5.6-sol ")
    ≡ some (9200000, "gpt-5.6-sol")
unfolding official_api_equivalent_cost_micro_usd same_codes lower trim is_whitespace
long_context_cost = refl

unknown_model : official_api_equivalent_cost_micro_usd (tokens 1 0 1) (some "unknown-model") ≡ none
unfolding official_api_equivalent_cost_micro_usd same_codes lower trim is_whitespace
unknown_model = refl
