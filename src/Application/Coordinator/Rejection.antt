-- ===== src/Application/Coordinator/Rejection.antt =====
-- What the coordinator's answer says of the state.
use codex_quota_glance.Prelude.{◌≡◌, false, arith}
use codex_quota_glance.Application.Monitor.{
  MonitorState, apply_authoritative, update_activity_at, apply_token_usage, apply_local_today_usage,
  apply_official,
}
use codex_quota_glance.Application.Coordinator.{
  TelemetryUpdate, reset_account, rate_limits, activity, token_usage, local_today_usage, official,
  rate_limits_unavailable, authoritative_unavailable, apply,
}

module _ {P : Type 0} where
  -- An update that is answered with `false` leaves the whole state as it was.
  apply_rejected :
      (s : MonitorState P) (u : TelemetryUpdate P) → (apply s u).1 ≡ false → (apply s u).0 ≡ s
  unfolding apply apply_official apply_authoritative apply_token_usage apply_local_today_usage
      update_activity_at
  apply_rejected s reset_account h = ground arith
  apply_rejected s (rate_limits n) h = ground arith
  apply_rejected s (activity states at) h = ground arith
  apply_rejected s (token_usage n) h = ground arith
  apply_rejected s (local_today_usage counts at) h = ground arith
  apply_rejected s (official n) h = ground arith
  apply_rejected s rate_limits_unavailable h = ground arith
  apply_rejected s (authoritative_unavailable at) h = ground arith
