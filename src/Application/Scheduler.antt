-- ===== src/Application/Scheduler.antt =====
-- crates/application/src/scheduler.rs: when the next telemetry snapshot is read.
pub mod Delays
mod Tests
use codex_quota_glance.Prelude.{
  ℕ, ◌+◌, ◌-◌, ◌^◌, ◌*◌, ◌%◌, min, ltb, if◌then◌else◌, Bool, true, false, Option, some, none,
  unwrap_or,
}
use codex_quota_glance.Prelude.Words.{u32_max}
use codex_quota_glance.Prelude.Duration.{Duration, from_secs, saturating_mul, min_duration}
use codex_quota_glance.Domain.Activity.{ActivityState, thinking, executing, reviewing}

pub record RefreshPolicy : Type 0 where
  pub active_interval : Duration
  pub idle_interval : Duration
  pub first_retry : Duration
  pub max_retry : Duration

abbrev pub default_policy : RefreshPolicy
default_policy = record {
  active_interval = from_secs 15;
  idle_interval = from_secs 60;
  first_retry = from_secs 5;
  max_retry = from_secs 300;
}

pub record RefreshScheduler : Type 0 where
  pub policy : RefreshPolicy
  pub consecutive_failures : ℕ

pub new : RefreshPolicy → RefreshScheduler
new policy = record { policy = policy; consecutive_failures = 0 }

pub record_success : RefreshScheduler → RefreshScheduler
record_success s = record s { consecutive_failures = 0 }

-- `u32::saturating_add(1)`.
pub record_failure : RefreshScheduler → RefreshScheduler
record_failure s = record s { consecutive_failures = min (s.consecutive_failures + 1) u32_max }

-- `u32::checked_shl`.
checked_shl : ℕ → ℕ → Option ℕ
checked_shl a k = if ltb k 32 then some (a * 2 ^ k % 2 ^ 32) else none

-- The three states that are refreshed at the active interval.
is_active : ActivityState → Bool
is_active thinking = true
is_active executing = true
is_active reviewing = true
is_active _ = false

pub next_delay : RefreshScheduler → ActivityState → Duration
unfolding checked_shl is_active
next_delay s activity =
    if ltb 0 s.consecutive_failures
    then (let exponent = min (s.consecutive_failures - 1) 31 in
        let factor = unwrap_or (checked_shl 1 exponent) u32_max in
        min_duration (saturating_mul s.policy.first_retry factor) s.policy.max_retry)
    else if is_active activity
    then s.policy.active_interval
    else s.policy.idle_interval
