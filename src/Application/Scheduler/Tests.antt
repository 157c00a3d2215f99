-- ===== src/Application/Scheduler/Tests.antt =====
-- A Rust test of scheduler.rs.
use codex_quota_glance.Prelude.{◌≡◌, refl}
use codex_quota_glance.Prelude.Duration.{from_secs}
use codex_quota_glance.Domain.Activity.{ActivityState, executing}
use codex_quota_glance.Application.Scheduler.{default_policy, new, next_delay}

active_and_idle :
    (next_delay (new default_policy) executing ≡ from_secs 15)
    × (next_delay (new default_policy) ActivityState.idle ≡ from_secs 60)
unfolding next_delay new
active_and_idle = (refl, refl)
