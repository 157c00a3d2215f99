-- ===== src/AppServer/Backoff.antt =====
-- crates/adapters-codex-app-server/src/supervisor.rs: the restart delay. Starting the process is
-- left out.
pub mod Growth
mod Tests
use codex_quota_glance.Prelude.{ℕ, zero, suc, ◌+◌, ◌*◌, ◌/◌, ◌%◌, max, if◌then◌else◌, not}
use codex_quota_glance.Prelude.Words.{saturating_add, saturating_mul}
use codex_quota_glance.Prelude.Duration.{
  Duration, billion, from_millis, from_secs, lt_duration, min_duration,
}

pub record ExponentialBackoff : Type 0 where
  pub initial : Duration
  pub maximum : Duration
  pub multiplier : ℕ

abbrev pub default_backoff : ExponentialBackoff
default_backoff = record { initial = from_millis 250; maximum = from_secs 30; multiplier = 2 }

-- The file's own `saturating_mul`, which saturates the seconds and keeps the nanoseconds.
scale : Duration → ℕ → Duration
scale d multiplier =
    let seconds = saturating_mul d.secs multiplier in
    let nanos = saturating_mul d.nanos multiplier in
    record { secs = saturating_add seconds (nanos / billion); nanos = nanos % billion }

-- The `for` loop over the attempts, with its early exit at the maximum.
delay_loop : ℕ → Duration → ℕ → Duration → Duration
unfolding scale
delay_loop zero delay multiplier maximum = delay
delay_loop (suc attempts) delay multiplier maximum =
    let next = min_duration (scale delay multiplier) maximum in
    let rest = delay_loop attempts next multiplier maximum in
    if not (lt_duration next maximum) then next else rest

pub delay_for : ExponentialBackoff → ℕ → Duration
unfolding delay_loop
delay_for b attempt =
    min_duration (delay_loop attempt b.initial (max b.multiplier 1) b.maximum) b.maximum
