-- ===== src/AppServer/Backoff/Growth.antt =====
-- The loop against the closed form of exponential growth.
use native.Mathlib.Nat.{pow-zero, pow-succ', mul_assoc, one-le-pow}
use codex_quota_glance.Prelude.{◌∙◌, ℕ, zero, suc, ◌*◌, ◌^◌, ◌≤◌, ◌<◌, ◌≡◌, max, min, arith}
use codex_quota_glance.Prelude.Words.{u64_max, u32_max, saturating_add, saturating_mul}
use codex_quota_glance.Prelude.Duration.{
  Duration, IsDuration, billion, total, lt_duration→lt, min_duration, total-min_duration,
  min_duration-IsDuration,
}
use codex_quota_glance.AppServer.Backoff.{ExponentialBackoff, scale, delay_loop, delay_for}

-- The parts fit their words, and the maximum lies below the last second that a duration can hold.
pub record IsBackoff (b : ExponentialBackoff) : Type 0 where
  pub initial_fits : IsDuration b.initial
  pub maximum_fits : IsDuration b.maximum
  pub maximum_below : b.maximum.secs < u64_max
  pub multiplier_fits : b.multiplier ≤ u32_max

scale-IsDuration : (d : Duration) (m : ℕ) → IsDuration d → IsDuration (scale d m)
unfolding scale saturating_add saturating_mul
scale-IsDuration d m v = ground arith

nanos_fit : (d : Duration) (m : ℕ) → IsDuration d → m ≤ u32_max → d.nanos * m ≤ u64_max
nanos_fit d m v h = grind arith

-- Saturation is invisible below a maximum that a duration can hold.
scale-min :
    (d : Duration) (m : ℕ) (top : Duration)
    → IsDuration d
    → m ≤ u32_max
    → top.secs < u64_max
    → top.nanos < billion
    → min (total (scale d m)) (total top) ≡ min (total d * m) (total top)
unfolding scale saturating_add saturating_mul
scale-min d m top v h k l = omega (arith, nanos_fit d m v h)

-- One more round of the closed form, past the maximum and below it.
grown : (t m q top : ℕ) → 1 ≤ q → top ≤ t * m → top ≤ t * (m * q)
grown t m q top h k = rw (← mul_assoc t m q) (grind arith)

still_growing : (x t m q : ℕ) → x ≡ t * m → x * q ≡ t * (m * q)
still_growing x t m q h = rw (← mul_assoc t m q) (rw h)

delay_loop-min :
    (n : ℕ) (d : Duration) (m : ℕ) (top : Duration)
    → IsDuration d
    → IsDuration top
    → 1 ≤ m
    → m ≤ u32_max
    → top.secs < u64_max
    → min (total (delay_loop n d m top)) (total top) ≡ min (total d * m ^ n) (total top)
unfolding delay_loop
delay_loop-min zero d m top v w h k l = rw pow-zero (omega arith)
delay_loop-min (suc n) d m top v w h k l =
    let next = min_duration (scale d m) top in
    let scaled = scale-IsDuration d m v in
    let next_fits = min_duration-IsDuration (scale d m) top scaled w in
    let next_total = total-min_duration (scale d m) top scaled w in
    rw (pow-succ' m n) (
      ground (
        arith,
        next_total,
        scale-min d m top v k l w.nanos_fit,
        lt_duration→lt next top next_fits w,
        delay_loop-min n next m top next_fits w h k l,
        one-le-pow n m h,
        grown (total d) m (m ^ n) (total top),
        still_growing (total next) (total d) m (m ^ n),
      ))

delay_loop-IsDuration :
    (n : ℕ) (d : Duration) (m : ℕ) (top : Duration)
    → IsDuration d
    → IsDuration top
    → IsDuration (delay_loop n d m top)
unfolding delay_loop
delay_loop-IsDuration zero d m top v w = v
delay_loop-IsDuration (suc n) d m top v w =
    let next = min_duration (scale d m) top in
    let next_fits = min_duration-IsDuration (scale d m) top (scale-IsDuration d m v) w in
    ground (arith, next_fits, delay_loop-IsDuration n next m top next_fits w)

-- The delay after `attempt` failures is the initial delay times the multiplier, which counts as 1
-- at least, to the power `attempt`, and never above the maximum: neither the early exit of the
-- loop nor the saturating product changes it.
pub delay_for_lem :
    (b : ExponentialBackoff) (attempt : ℕ)
    → IsBackoff b
    → total (delay_for b attempt)
      ≡ min (total b.initial * max b.multiplier 1 ^ attempt) (total b.maximum)
unfolding delay_for
delay_for_lem b attempt v =
    let m = max b.multiplier 1 in
    let v' = delay_loop-IsDuration attempt b.initial m b.maximum v.initial_fits v.maximum_fits in
    let d = delay_loop attempt b.initial m b.maximum in
    total-min_duration d b.maximum v' v.maximum_fits
    ∙ delay_loop-min attempt b.initial m b.maximum v.initial_fits v.maximum_fits (omega arith)
        (omega (arith, v.multiplier_fits)) v.maximum_below
