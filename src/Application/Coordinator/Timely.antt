-- ===== src/Application/Coordinator/Timely.antt =====
-- The time that the state was observed at, and which disconnections are therefore taken.
use codex_quota_glance.Prelude.{◌≡◌, List, [], ◌∷◌, All, true, arith}
use codex_quota_glance.Prelude.Int.{ℤ, ◌≤ℤ◌}
use codex_quota_glance.Application.Monitor.{
  MonitorState, reset_account_scoped_state, apply_authoritative, update_activity_at,
  apply_token_usage, apply_local_today_usage, apply_official, mark_rate_limits_unavailable,
  mark_token_usage_unavailable, mark_official_cached,
}
use codex_quota_glance.Application.Coordinator.{
  TelemetryUpdate, reset_account, rate_limits, activity, token_usage, local_today_usage, official,
  rate_limits_unavailable, authoritative_unavailable, apply, run,
}

module _ {P : Type 0} (later : ℤ) where
  -- Nothing that the update says was observed later.
  abbrev pub Timely : TelemetryUpdate P → Type 0
  Timely (rate_limits n) = n.observed_at_unix_ms ≤ℤ later
  Timely (authoritative_unavailable at) = at ≤ℤ later
  Timely _ = Unit

  apply-observed :
      (s : MonitorState P) (u : TelemetryUpdate P)
      → s.observed_at_unix_ms ≤ℤ later
      → Timely u
      → (apply s u).0.observed_at_unix_ms ≤ℤ later
  unfolding apply apply_official apply_authoritative apply_token_usage apply_local_today_usage
      update_activity_at reset_account_scoped_state mark_rate_limits_unavailable
      mark_token_usage_unavailable mark_official_cached
  apply-observed s reset_account h t = h
  apply-observed s (rate_limits n) h t = ground arith
  apply-observed s (activity states at) h t = ground arith
  apply-observed s (token_usage n) h t = ground arith
  apply-observed s (local_today_usage counts at) h t = ground arith
  apply-observed s (official n) h t = h
  apply-observed s rate_limits_unavailable h t = h
  apply-observed s (authoritative_unavailable at) h t = ground arith

  pub run-observed :
      (s : MonitorState P) (us : List (TelemetryUpdate P))
      → s.observed_at_unix_ms ≤ℤ later
      → All Timely us
      → (run s us).observed_at_unix_ms ≤ℤ later
  unfolding run
  run-observed s [] h t = h
  run-observed s (u ∷ us) h t = run-observed (apply s u).0 us (apply-observed s u h t.0) t.1

  pub disconnect-accepted :
      (s : MonitorState P)
      → s.observed_at_unix_ms ≤ℤ later
      → (apply s (authoritative_unavailable later)).1 ≡ true
  unfolding apply
  disconnect-accepted s h = ground arith
