-- ===== src/Application/Ledger/Balance.antt =====
-- Every total of a day is the sum of its hourly buckets, up to saturation.
use codex_quota_glance.Prelude.{
  ℕ, zero, suc, ◌+◌, ◌≤◌, ◌<◌, ◌≡◌, min, List, [], ◌∷◌, length, get_or, length-set, arith, Option,
  none, some,
}
use codex_quota_glance.Prelude.Words.{u64_max, saturating_add, saturating_add_lem}
use codex_quota_glance.Domain.Usage.{TokenCounts}
use codex_quota_glance.Application.Ledger.Day.{
  UsageDay, empty_day, add_at, add_tokens, add_cost, add_counts,
}
use codex_quota_glance.Application.Ledger.Books.{Event, bucket, add_delta, add_events}

abbrev pub sum : List ℕ → ℕ
sum [] = 0
sum (x ∷ xs) = x + sum xs

length-add_at : (hours : List ℕ) (h n : ℕ) → length (add_at hours h n) ≡ length hours
unfolding add_at
length-add_at hours h n = length-set hours h (saturating_add (get_or hours h 0) n)

sum-add_at :
    (hours : List ℕ) (h n : ℕ)
    → h < length hours
    → min (sum (add_at hours h n)) u64_max ≡ min (sum hours + n) u64_max
unfolding add_at saturating_add
sum-add_at [] h n l = absurd (omega arith)
sum-add_at (x ∷ xs) zero n l = omega arith
sum-add_at (x ∷ xs) (suc h) n l = omega (arith, sum-add_at xs h n (omega arith))

-- A total over 24 buckets.
pub record Balances (total : ℕ) (hours : List ℕ) : Type 0 where
  pub hours_long : length hours ≡ 24
  pub adds_up : total ≡ min (sum hours) u64_max

add_at-Balances :
    (total : ℕ) (hours : List ℕ) (h n : ℕ)
    → h ≤ 23
    → Balances total hours
    → Balances (saturating_add total n) (add_at hours h n)
add_at-Balances total hours h n l b = record {
  hours_long = omega (arith, length-add_at hours h n);
  adds_up = omega (arith, sum-add_at hours h n (omega arith), saturating_add_lem total n);
}

pub record IsBalanced (d : UsageDay) : Type 0 where
  pub tokens : Balances d.total_tokens d.hourly_tokens
  pub inputs : Balances d.input_tokens d.hourly_input_tokens
  pub hits : Balances d.cached_input_tokens d.hourly_cached_input_tokens
  pub outputs : Balances d.output_tokens d.hourly_output_tokens
  pub costs : Balances d.estimated_api_cost_micro_usd d.hourly_estimated_api_cost_micro_usd

empty-Balances : Balances 0 empty_day.hourly_tokens
empty-Balances = omega arith

pub empty_day-IsBalanced : IsBalanced empty_day
empty_day-IsBalanced = record {
  tokens = empty-Balances;
  inputs = empty-Balances;
  hits = empty-Balances;
  outputs = empty-Balances;
  costs = empty-Balances;
}

add_tokens-IsBalanced :
    (d : UsageDay) (h : ℕ) (c : TokenCounts) → h ≤ 23 → IsBalanced d → IsBalanced (add_tokens d h c)
unfolding add_tokens
add_tokens-IsBalanced d h c l b = record {
  tokens = add_at-Balances _ _ h _ l b.tokens;
  inputs = add_at-Balances _ _ h _ l b.inputs;
  hits = add_at-Balances _ _ h _ l b.hits;
  outputs = add_at-Balances _ _ h _ l b.outputs;
  costs = b.costs;
}

add_cost-IsBalanced :
    (d : UsageDay) (h : ℕ) (cost : Option ℕ)
    → h ≤ 23
    → IsBalanced d
    → IsBalanced (add_cost d h cost)
unfolding add_cost
add_cost-IsBalanced d h none l b = b
add_cost-IsBalanced d h (some cost) l b = record {
  tokens = b.tokens;
  inputs = b.inputs;
  hits = b.hits;
  outputs = b.outputs;
  costs = add_at-Balances _ _ h cost l b.costs;
}

pub add_counts-IsBalanced :
    (d : UsageDay) (h : ℕ) (c : TokenCounts) (cost : Option ℕ)
    → h ≤ 23
    → IsBalanced d
    → IsBalanced (add_counts d h c cost)
unfolding add_counts
add_counts-IsBalanced d h c cost l b =
    add_cost-IsBalanced (add_tokens d h c) h cost l (add_tokens-IsBalanced d h c l b)

pub add_delta-IsBalanced :
    (d : UsageDay) (h n : ℕ) → h ≤ 23 → IsBalanced d → IsBalanced (add_delta d h n)
unfolding add_delta
add_delta-IsBalanced d h n l b = record {
  tokens = add_at-Balances _ _ h n l b.tokens;
  inputs = b.inputs;
  hits = b.hits;
  outputs = b.outputs;
  costs = b.costs;
}

pub add_events-IsBalanced :
    (d : UsageDay) (es : List Event) → IsBalanced d → IsBalanced (add_events d es)
unfolding add_events
add_events-IsBalanced d [] b = b
add_events-IsBalanced d ((hour, c, cost) ∷ es) b =
    add_events-IsBalanced (add_counts d (bucket hour) c cost) es
      (add_counts-IsBalanced d (bucket hour) c cost (omega arith) b)
