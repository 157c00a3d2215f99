-- ===== src/Application/Coordinator.antt =====
-- crates/application/src/coordinator.rs: the serial reducer of telemetry events.
pub mod Rejection
pub mod Versions
pub mod Disconnect
pub mod Accounts
pub mod Invariant
pub mod Timely
pub mod Authority
mod Tests
use codex_quota_glance.Prelude.{if◌then◌else◌, List, [], ◌∷◌, Option, Bool, true, false, ite}
use codex_quota_glance.Prelude.Int.{ℤ, ltb_ℤ}
use codex_quota_glance.Domain.Activity.{ActivityState, ActivityState-discrete}
use codex_quota_glance.Domain.Usage.{TokenCounts}
use codex_quota_glance.Domain.Official.{OfficialSnapshot}
use codex_quota_glance.Application.Snapshots.{RateLimitSnapshot, TokenUsageSnapshot}
use codex_quota_glance.Application.Monitor.{
  MonitorState, reset_account_scoped_state, apply_authoritative, update_activity_at,
  apply_token_usage, apply_local_today_usage, apply_official, mark_rate_limits_unavailable,
  mark_token_usage_unavailable, mark_official_cached,
}

pub data TelemetryUpdate (P : Type 0) : Type 0 where
  reset_account : TelemetryUpdate P
  rate_limits : RateLimitSnapshot P → TelemetryUpdate P
  activity : (states : List ActivityState) (observed_at : ℤ) → TelemetryUpdate P
  token_usage : TokenUsageSnapshot → TelemetryUpdate P
  local_today_usage : (counts : Option TokenCounts) (observed_at : ℤ) → TelemetryUpdate P
  official : OfficialSnapshot P → TelemetryUpdate P
  rate_limits_unavailable : TelemetryUpdate P
  authoritative_unavailable : (observed_at : ℤ) → TelemetryUpdate P

module _ {P : Type 0} where
  disconnect : MonitorState P → ℤ → MonitorState P × Bool
  disconnect s observed_at =
      if ltb_ℤ observed_at s.observed_at_unix_ms
      then (s, false)
      else let s' =
          mark_official_cached (mark_token_usage_unavailable (mark_rate_limits_unavailable s)) in
        (record s' { observed_at_unix_ms = observed_at }, true)

  pub apply : MonitorState P → TelemetryUpdate P → MonitorState P × Bool
  unfolding disconnect
  apply s reset_account = (reset_account_scoped_state s, true)
  apply s (rate_limits n) = apply_authoritative s n
  apply s (activity states observed_at) =
      let s' = update_activity_at s states observed_at in
      (s', ite (ActivityState-discrete s'.activity s.activity) false true)
  apply s (token_usage n) = apply_token_usage s n
  apply s (local_today_usage counts observed_at) = apply_local_today_usage s counts observed_at
  apply s (official n) = apply_official s n
  apply s rate_limits_unavailable = (mark_rate_limits_unavailable s, true)
  apply s (authoritative_unavailable observed_at) = disconnect s observed_at

  unfoldable pub run : MonitorState P → List (TelemetryUpdate P) → MonitorState P
  unfolding apply
  run s [] = s
  run s (u ∷ us) = run (apply s u).0 us
