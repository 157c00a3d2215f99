-- ===== src/Application/UiSnapshot/Percent.antt =====
-- The cache hit percentage of both snapshots.
use native.Mathlib.Nat.{div-le_of_le-mul}
use codex_quota_glance.Prelude.{
  ◌>>=◌, sym, ℕ, ◌*◌, ◌/◌, ◌≤◌, ◌≡◌, refl, Option, none, some, arith, if◌then◌else◌,
}
use codex_quota_glance.Prelude.Words.{u64_max, saturating_mul}
use codex_quota_glance.Domain.Usage.{TokenCounts}
use codex_quota_glance.Application.Monitor.{MonitorState}
use codex_quota_glance.Application.UiSnapshot.{
  percent, popup_percent, cache_hit_percent, popup_from_monitor_state,
}

-- A percentage, if there is one, is at most 100.
abbrev pub AtMostHundred : Option ℕ → Type 0
AtMostHundred none = Unit {0}
AtMostHundred (some n) = n ≤ 100

percent-le : (hits input : ℕ) → percent hits input ≤ 100
unfolding percent
percent-le hits input = omega arith

le_hundred : (hits input : ℕ) → hits ≤ input → hits * 100 ≤ input * 100
le_hundred hits input h = omega arith

-- Where the cached tokens are part of the input and the product fits 64 bits, the percentage is
-- the quotient rounded down: neither the saturation, the cap nor the cast to a byte changes it.
percent_exact :
    (hits input : ℕ) → hits ≤ input → hits * 100 ≤ u64_max → percent hits input ≡ hits * 100 / input
unfolding percent
percent_exact hits input h k =
    let product : saturating_mul hits 100 ≡ hits * 100 = unfold saturating_mul in omega arith in
    rw product (omega (arith, div-le_of_le-mul input (le_hundred hits input h)))

popup_percent-AtMostHundred : (input hits : Option ℕ) → AtMostHundred (popup_percent input hits)
unfolding popup_percent
popup_percent-AtMostHundred (some input) (some hits) = ground (arith, percent-le hits input)
popup_percent-AtMostHundred (some input) none = tt
popup_percent-AtMostHundred none hits = tt

-- The match of the popup and the chain of `?` of the taskbar are one function.
cache_hit_percent-popup_percent :
    (c : TokenCounts) → cache_hit_percent (some c) ≡ popup_percent c.input c.cached_input
unfolding cache_hit_percent popup_percent
cache_hit_percent-popup_percent c = ground arith

-- The percentage never exceeds 100, whatever counts a source reports.
cache_hit_percent-AtMostHundred : (c : Option TokenCounts) → AtMostHundred (cache_hit_percent c)
cache_hit_percent-AtMostHundred none = unfold cache_hit_percent in tt
cache_hit_percent-AtMostHundred (some c) =
    rw (cache_hit_percent-popup_percent c) (popup_percent-AtMostHundred c.input c.cached_input)

turn_percent :
    (t : Option TokenCounts)
    → popup_percent (t >>= λ c. c.input) (t >>= λ c. c.cached_input) ≡ cache_hit_percent t
turn_percent none = unfold popup_percent cache_hit_percent in refl
turn_percent (some c) = sym (cache_hit_percent-popup_percent c)

module _ {P : Type 0} where
  abbrev turn : MonitorState P → Option TokenCounts
  turn s = if s.token_usage.fresh then s.token_usage.last_turn else none

  -- The popup's percentage is that of the taskbar's rule at the last turn, and there is none
  -- where the token state is not fresh.
  popup_percent_lem :
      (s : MonitorState P)
      → (popup_from_monitor_state s).cache_hit_percent
        ≡ cache_hit_percent (if s.token_usage.fresh then s.token_usage.last_turn else none)
  unfolding popup_from_monitor_state
  popup_percent_lem s = turn_percent (turn s)
