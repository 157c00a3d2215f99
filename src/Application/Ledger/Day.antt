-- ===== src/Application/Ledger/Day.antt =====
-- One day of the ledger: totals and 24 hourly buckets.
use codex_quota_glance.Prelude.{
  ℕ, ltb, if◌then◌else◌, List, Option, none, some, unwrap_or, get_or, set, replicate,
}
use codex_quota_glance.Prelude.Words.{saturating_add}
use codex_quota_glance.Domain.Usage.{TokenCounts, display_total}

pub record UsageDay : Type 0 where
  pub total_tokens : ℕ
  pub hourly_tokens : List ℕ
  pub input_tokens : ℕ
  pub cached_input_tokens : ℕ
  pub output_tokens : ℕ
  pub hourly_input_tokens : List ℕ
  pub hourly_cached_input_tokens : List ℕ
  pub hourly_output_tokens : List ℕ
  pub estimated_api_cost_micro_usd : ℕ
  pub hourly_estimated_api_cost_micro_usd : List ℕ

abbrev pub empty_hourly_tokens : List ℕ
empty_hourly_tokens = replicate 24 0

abbrev pub empty_day : UsageDay
empty_day = record {
  total_tokens = 0;
  hourly_tokens = empty_hourly_tokens;
  input_tokens = 0;
  cached_input_tokens = 0;
  output_tokens = 0;
  hourly_input_tokens = empty_hourly_tokens;
  hourly_cached_input_tokens = empty_hourly_tokens;
  hourly_output_tokens = empty_hourly_tokens;
  estimated_api_cost_micro_usd = 0;
  hourly_estimated_api_cost_micro_usd = empty_hourly_tokens;
}

-- `(n > 0).then_some(n)`.
then_some : ℕ → Option ℕ
then_some n = if ltb 0 n then some n else none

unfoldable pub counts : UsageDay → TokenCounts
unfolding then_some
counts d = record {
  input = then_some d.input_tokens;
  cached_input = then_some d.cached_input_tokens;
  cache_write_input = none;
  output = then_some d.output_tokens;
  reasoning_output = none;
  total = then_some d.total_tokens;
}

-- `hours[hour] = hours[hour].saturating_add(n)`.
unfoldable pub add_at : List ℕ → ℕ → ℕ → List ℕ
add_at hours hour n = set hours hour (saturating_add (get_or hours hour 0) n)

-- The first eight assignments of `add_counts`, and the price where there is one.
unfoldable pub add_tokens : UsageDay → ℕ → TokenCounts → UsageDay
add_tokens d hour c =
    let total = unwrap_or (display_total c) 0 in
    let input = unwrap_or c.input 0 in
    let hits = unwrap_or c.cached_input 0 in
    let output = unwrap_or c.output 0 in
    record d {
      total_tokens = saturating_add d.total_tokens total;
      input_tokens = saturating_add d.input_tokens input;
      cached_input_tokens = saturating_add d.cached_input_tokens hits;
      output_tokens = saturating_add d.output_tokens output;
      hourly_tokens = add_at d.hourly_tokens hour total;
      hourly_input_tokens = add_at d.hourly_input_tokens hour input;
      hourly_cached_input_tokens = add_at d.hourly_cached_input_tokens hour hits;
      hourly_output_tokens = add_at d.hourly_output_tokens hour output;
    }

unfoldable pub add_cost : UsageDay → ℕ → Option ℕ → UsageDay
add_cost d hour none = d
add_cost d hour (some cost) = record d {
  estimated_api_cost_micro_usd = saturating_add d.estimated_api_cost_micro_usd cost;
  hourly_estimated_api_cost_micro_usd = add_at d.hourly_estimated_api_cost_micro_usd hour cost;
}

unfoldable pub add_counts : UsageDay → ℕ → TokenCounts → Option ℕ → UsageDay
add_counts d hour c cost = add_cost (add_tokens d hour c) hour cost
