-- ===== src/Application/Scheduler/Delays.antt =====
-- The retry delay in closed form.
use native.Mathlib.Nat.{pow-le-pow_right}
use codex_quota_glance.Prelude.{
  ℕ, zero, suc, ◌-◌, ◌*◌, ◌^◌, ◌≤◌, ◌≡◌, refl, min, arith, Bool, true, false, unwrap_or,
  if◌then◌else◌,
}
use codex_quota_glance.Prelude.Words.{u32_max}
use codex_quota_glance.Prelude.Duration.{
  IsDuration, total, saturating_mul, min_duration, total-min_duration, total-saturating_mul,
  saturating_mul-IsDuration,
}
use codex_quota_glance.Domain.Activity.{ActivityState, lamp_style, continuous, BreathePolicy}
use codex_quota_glance.Application.Scheduler.{
  RefreshPolicy, RefreshScheduler, new, record_success, record_failure, checked_shl, next_delay,
}

pub record IsPolicy (p : RefreshPolicy) : Type 0 where
  pub first_fits : IsDuration p.first_retry
  pub max_fits : IsDuration p.max_retry

-- The scheduler after `n` failed reads in a row.
abbrev pub after_failures : ℕ → RefreshScheduler → RefreshScheduler
after_failures zero s = s
after_failures (suc n) s = record_failure (after_failures n s)

after_failures-count :
    (n : ℕ) (p : RefreshPolicy)
    → after_failures n (new p) ≡ record { policy = p; consecutive_failures = min n u32_max }
unfolding new record_failure
after_failures-count zero p = ground arith
after_failures-count (suc n) p = ground (arith, after_failures-count n p)

factor_lem : (k : ℕ) → k ≤ 31 → unwrap_or (checked_shl 1 k) u32_max ≡ 2 ^ k
unfolding checked_shl
factor_lem k h = ground (arith, pow-le-pow_right {n = 2} (omega arith) h)

retry_delay :
    (p : RefreshPolicy) (k : ℕ)
    → IsPolicy p
    → total (min_duration (saturating_mul p.first_retry k) p.max_retry)
      ≡ min (total p.first_retry * k) (total p.max_retry)
retry_delay p k v =
    let product = saturating_mul p.first_retry k in
    let product_fits = saturating_mul-IsDuration p.first_retry k v.first_fits in
    omega (
      arith,
      total-min_duration product p.max_retry product_fits v.max_fits,
      total-saturating_mul p.first_retry k v.first_fits,
    )

abbrev failed : ℕ → RefreshPolicy → RefreshScheduler
failed n p = record { policy = p; consecutive_failures = min (suc n) u32_max }

abbrev pub breathes : BreathePolicy → Bool
breathes continuous = true
breathes _ = false

next_delay_lem :
    (s : RefreshScheduler) (a : ActivityState) (n : ℕ)
    → s.consecutive_failures ≡ min (suc n) u32_max
    → next_delay s a
      ≡ min_duration (saturating_mul s.policy.first_retry (2 ^ min n 31)) s.policy.max_retry
unfolding next_delay
next_delay_lem s a n h =
    let exponent : min (s.consecutive_failures - 1) 31 ≡ min n 31 = omega arith in
    ground (arith, exponent, factor_lem (min n 31) (omega arith))

-- The delay after `n + 1` failures in a row is the first delay doubled `n` times, 31 times at
-- most, and never above the policy's maximum; the failure count saturates without a short delay,
-- and no activity shortens it.
next_delay-failures :
    (p : RefreshPolicy) (n : ℕ) (a : ActivityState)
    → IsPolicy p
    → total (next_delay (after_failures (suc n) (new p)) a)
      ≡ min (total p.first_retry * 2 ^ min n 31) (total p.max_retry)
unfolding next_delay
next_delay-failures p n a v =
    rw (after_failures-count (suc n) p, next_delay_lem (failed n p) a n refl)
      (retry_delay p (2 ^ min n 31) v)

-- After a success the delay is the active interval exactly for the activities whose lamp breathes
-- without end, and the idle interval for all others, whatever failed before.
next_delay-record_success :
    (s : RefreshScheduler) (a : ActivityState)
    → next_delay (record_success s) a ≡ (
        if breathes (lamp_style a).breathe
        then s.policy.active_interval
        else s.policy.idle_interval)
unfolding next_delay record_success lamp_style
next_delay-record_success s a = ground arith
