-- ===== src/AppServer/Backoff/Tests.antt =====
-- The Rust tests of supervisor.rs, and the theorem at a concrete input.
use codex_quota_glance.Prelude.{◌≡◌, refl, arith}
use codex_quota_glance.Prelude.Duration.{total, from_secs, from_millis, min_duration}
use codex_quota_glance.Prelude.Words.{saturating_add, saturating_mul}
use codex_quota_glance.AppServer.Backoff.{ExponentialBackoff, default_backoff, delay_for}
use codex_quota_glance.AppServer.Backoff.Growth.{delay_for_lem}

abbrev from_tenth : ExponentialBackoff
from_tenth = record { initial = from_millis 100; maximum = from_secs 1; multiplier = 2 }

grows_and_saturates :
    (delay_for from_tenth 0 ≡ from_millis 100)
    × (delay_for from_tenth 3 ≡ from_millis 800)
    × (delay_for from_tenth 10 ≡ from_secs 1)
unfolding delay_for min_duration saturating_add saturating_mul
grows_and_saturates = (refl, refl, refl)

delay_for_lem_example : total (delay_for default_backoff 3) ≡ 2_000_000_000
delay_for_lem_example = delay_for_lem default_backoff 3 (record {
  initial_fits = omega arith;
  maximum_fits = omega arith;
  maximum_below = omega arith;
  multiplier_fits = omega arith;
})
