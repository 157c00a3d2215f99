-- ===== src/Taskbar/Runtime/Updates.antt =====
-- apps/codex-taskbar/src/official_runtime.rs, `apply_session_update`: what the app server's session
-- sends, as the coordinator takes it.
use codex_quota_glance.Prelude.{
  if◌then◌else◌, List, [], ◌∷◌, ◌++◌, Option, none, some, Bool, true, false, not, ◌&&◌,
}
use codex_quota_glance.Prelude.Int.{ℤ}
use codex_quota_glance.Domain.Official.{is_live}
use codex_quota_glance.Application.Monitor.{MonitorState}
use codex_quota_glance.Application.Snapshots.{TokenUsageSnapshot}
use codex_quota_glance.Application.Coordinator.{
  TelemetryUpdate, reset_account, rate_limits, activity, token_usage, official,
  authoritative_unavailable, run,
}
use codex_quota_glance.AppServer.Session.{
  SessionUpdate, SourceHealth, healthy, degraded, SessionFreshness, fresh,
}
use codex_quota_glance.AppServer.Threads.{ActivityEvent}
use codex_quota_glance.Taskbar.Runtime.Lease.{is_concrete_activity}

is_connected : SourceHealth → Bool
is_connected healthy = true
is_connected degraded = true
is_connected _ = false

abbrev is_fresh : SessionFreshness → Bool
is_fresh fresh = true
is_fresh _ = false

module _ {P : Type 0} where
  unfoldable pub usage_update : Option TokenUsageSnapshot → List (TelemetryUpdate P)
  usage_update none = []
  usage_update (some n) = token_usage n ∷ []

  abbrev pub when : Bool → TelemetryUpdate P → List (TelemetryUpdate P)
  when true u = u ∷ []
  when false u = []

module _ {V : Type 0} where
  unfoldable pub is_concrete : Option (ActivityEvent V) → Bool
  unfolding is_concrete_activity
  is_concrete none = false
  is_concrete (some e) = is_concrete_activity e.state

module _ {V P : Type 0} where
  unfoldable pub is_healthy : SessionUpdate V P → Bool
  unfolding is_connected
  is_healthy u = is_connected u.source_health && is_fresh u.freshness

  unfoldable pub activity_update : Option (ActivityEvent V) → ℤ → List (TelemetryUpdate P)
  unfolding is_concrete_activity
  activity_update none now = []
  activity_update (some e) now =
      if is_concrete_activity e.state then activity (e.state ∷ []) now ∷ [] else []

  -- The calls of `coordinator.apply`, in order. The clock is read twice.
  unfoldable pub session_updates : SessionUpdate V P → (now later : ℤ) → List (TelemetryUpdate P)
  unfolding activity_update usage_update is_healthy
  session_updates u now later =
      when u.reset_account_scoped_state reset_account
      ++ (official u.official
          ∷ (when (is_live u.official.quota_status.freshness) (rate_limits u.quota)
              ++ (activity_update u.activity now
                  ++ (usage_update u.usage
                      ++ when (not (is_healthy u)) (authoritative_unavailable later)))))

  unfoldable pub apply_session_update :
      MonitorState P → SessionUpdate V P → (now later : ℤ) → MonitorState P × Bool
  unfolding session_updates is_healthy
  apply_session_update s u now later = (run s (session_updates u now later), is_healthy u)
