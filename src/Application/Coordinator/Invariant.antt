-- ===== src/Application/Coordinator/Invariant.antt =====
-- What holds of the state after any sequence of updates.
use codex_quota_glance.Prelude.{◌≡◌, List, [], ◌∷◌, Option, none, some, false, not, ◌&&◌, arith}
use codex_quota_glance.Domain.Quota.History.{
  IsConsistent, no_window-IsConsistent, from_authoritative-IsConsistent, unavailable-IsConsistent,
}
use codex_quota_glance.Domain.Usage.{
  TokenCounts, TokenUsageState, no_usage, is_realtime, is_sqlite, mark_unavailable,
}
use codex_quota_glance.Application.Snapshots.{TokenUsageSnapshot}
use codex_quota_glance.Application.Monitor.{
  MonitorState, initial, apply_authoritative, update_activity_at, apply_token_usage,
  apply_local_today_usage, apply_official, reset_account_scoped_state, mark_rate_limits_unavailable,
  mark_token_usage_unavailable, mark_official_cached, take_token_usage,
}
use codex_quota_glance.Application.Coordinator.{
  TelemetryUpdate, reset_account, rate_limits, activity, token_usage, local_today_usage, official,
  rate_limits_unavailable, authoritative_unavailable, apply, run,
}

-- The current thread's counts are also the last known ones.
abbrev pub Kept : Option TokenCounts → Option TokenCounts → Type 0
Kept none last = Unit {0}
Kept (some c) last = last ≡ some c

-- Fresh exactly with a realtime source; a partial day only from the local ledger; and the current
-- thread's counts are kept as the last known ones.
pub record IsHonest (t : TokenUsageState) : Type 0 where
  pub realtime : t.fresh ≡ is_realtime t.source
  pub partial_local : (t.today_is_partial && not (is_sqlite t.today_source)) ≡ false
  pub kept : Kept t.current_thread t.last_known

no_usage-IsHonest : IsHonest no_usage
unfolding is_realtime
no_usage-IsHonest = ground arith

take_token_usage-IsHonest :
    (n : TokenUsageSnapshot) (t : TokenUsageState) → IsHonest t → IsHonest (take_token_usage n t)
unfolding take_token_usage is_realtime is_sqlite
take_token_usage-IsHonest n t h = ground arith

mark_unavailable-IsHonest : (t : TokenUsageState) → IsHonest t → IsHonest (mark_unavailable t)
unfolding mark_unavailable is_realtime
mark_unavailable-IsHonest t h = ground arith

module _ {P : Type 0} where
  pub record IsValid (s : MonitorState P) : Type 0 where
    pub five_hour : IsConsistent s.five_hour
    pub weekly : IsConsistent s.weekly
    pub tokens : IsHonest s.token_usage

  apply-IsValid : (s : MonitorState P) (u : TelemetryUpdate P) → IsValid s → IsValid (apply s u).0
  unfolding apply apply_official apply_authoritative apply_token_usage apply_local_today_usage
      update_activity_at reset_account_scoped_state mark_rate_limits_unavailable
      mark_token_usage_unavailable mark_official_cached is_sqlite
  apply-IsValid s reset_account v = record {
    five_hour = no_window-IsConsistent;
    weekly = no_window-IsConsistent;
    tokens = no_usage-IsHonest;
  }
  apply-IsValid s (rate_limits n) v = ground (
    arith,
    from_authoritative-IsConsistent n.five_hour s.five_hour,
    from_authoritative-IsConsistent n.weekly s.weekly,
  )
  apply-IsValid s (activity states at) v = ground arith
  apply-IsValid s (token_usage n) v = ground (arith, take_token_usage-IsHonest n s.token_usage)
  apply-IsValid s (local_today_usage counts at) v = ground arith
  apply-IsValid s (official n) v = ground arith
  apply-IsValid s rate_limits_unavailable v =
      ground (arith, unavailable-IsConsistent s.five_hour, unavailable-IsConsistent s.weekly)
  apply-IsValid s (authoritative_unavailable at) v = ground (
    arith,
    unavailable-IsConsistent s.five_hour,
    unavailable-IsConsistent s.weekly,
    mark_unavailable-IsHonest s.token_usage,
  )

  pub run-IsValid :
      (s : MonitorState P) (us : List (TelemetryUpdate P)) → IsValid s → IsValid (run s us)
  unfolding run
  run-IsValid s [] v = v
  run-IsValid s (u ∷ us) v = run-IsValid (apply s u).0 us (apply-IsValid s u v)

  -- After any updates from the start both windows are consistent, and the token state is fresh
  -- exactly with a realtime source, marks a day as partial only from the local ledger, and keeps
  -- the current thread's counts as the last known ones.
  pub run-initial-IsValid : (us : List (TelemetryUpdate P)) → IsValid (run initial us)
  run-initial-IsValid us = run-IsValid initial us (record {
    five_hour = no_window-IsConsistent;
    weekly = no_window-IsConsistent;
    tokens = no_usage-IsHonest;
  })
