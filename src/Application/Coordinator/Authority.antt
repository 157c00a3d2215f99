-- ===== src/Application/Coordinator/Authority.antt =====
-- What of the state comes from the app server alone: both quota windows, the official data, and the
-- time and the revision that the windows are of.
use codex_quota_glance.Prelude.{◌≡◌, refl, ap, ◌∙◌, sym, ℕ, List, [], ◌∷◌, Option, arith}
use codex_quota_glance.Prelude.Int.{ℤ}
use codex_quota_glance.Domain.Activity.{ActivityState}
use codex_quota_glance.Domain.Usage.{TokenCounts}
use codex_quota_glance.Domain.Quota.{QuotaWindowState}
use codex_quota_glance.Domain.Official.{OfficialSnapshot}
use codex_quota_glance.Application.Snapshots.{TokenUsageSnapshot}
use codex_quota_glance.Application.Monitor.{
  MonitorState, initial, reset_account_scoped_state, apply_authoritative, update_activity_at,
  apply_token_usage, apply_local_today_usage, apply_official, mark_rate_limits_unavailable,
  mark_token_usage_unavailable, mark_official_cached,
}
use codex_quota_glance.Application.Coordinator.{
  TelemetryUpdate, reset_account, rate_limits, activity, token_usage, local_today_usage, official,
  rate_limits_unavailable, authoritative_unavailable, apply, run,
}

pub record Authority (P : Type 0) : Type 0 where
  pub five_hour : QuotaWindowState P
  pub weekly : QuotaWindowState P
  pub official : Option (OfficialSnapshot P)
  pub observed_at_unix_ms : ℤ
  pub revision : ℕ

module _ {P : Type 0} where
  abbrev pub authority : MonitorState P → Authority P
  authority s = record {
    five_hour = s.five_hour;
    weekly = s.weekly;
    official = s.official;
    observed_at_unix_ms = s.observed_at_unix_ms;
    revision = s.revision;
  }

  -- A state that has nothing else.
  abbrev bare : Authority P → MonitorState P
  bare a = record initial {
    five_hour = a.five_hour;
    weekly = a.weekly;
    official = a.official;
    observed_at_unix_ms = a.observed_at_unix_ms;
    revision = a.revision;
  }

  -- The activity, the tokens and the day's total do not touch it.
  pub apply_activity-authority :
      (s : MonitorState P) (states : List ActivityState) (at : ℤ)
      → authority (apply s (activity states at)).0 ≡ authority s
  unfolding apply update_activity_at
  apply_activity-authority s states at = ground arith

  pub apply_usage-authority :
      (s : MonitorState P) (n : TokenUsageSnapshot)
      → authority (apply s (token_usage n)).0 ≡ authority s
  unfolding apply apply_token_usage
  apply_usage-authority s n = ground arith

  pub apply_today-authority :
      (s : MonitorState P) (counts : Option TokenCounts) (at : ℤ)
      → authority (apply s (local_today_usage counts at)).0 ≡ authority s
  unfolding apply apply_local_today_usage
  apply_today-authority s counts at = ground arith

  apply-bare :
      (s : MonitorState P) (u : TelemetryUpdate P)
      → authority (apply s u).0 ≡ authority (apply (bare (authority s)) u).0
  unfolding apply apply_official apply_authoritative apply_token_usage apply_local_today_usage
      update_activity_at reset_account_scoped_state mark_rate_limits_unavailable
      mark_token_usage_unavailable mark_official_cached
  apply-bare s reset_account = refl
  apply-bare s (rate_limits n) = ground arith
  apply-bare s (activity states at) = ground arith
  apply-bare s (token_usage n) = ground arith
  apply-bare s (local_today_usage counts at) = ground arith
  apply-bare s (official n) = refl
  apply-bare s rate_limits_unavailable = refl
  apply-bare s (authoritative_unavailable at) = ground arith

  pub run-authority :
      (s t : MonitorState P) (us : List (TelemetryUpdate P))
      → authority s ≡ authority t
      → authority (run s us) ≡ authority (run t us)
  unfolding run
  run-authority s t [] e = e
  run-authority s t (u ∷ us) e =
      run-authority (apply s u).0 (apply t u).0 us
        (apply-bare s u ∙ ap (λ a. authority (apply (bare a) u).0) e ∙ sym (apply-bare t u))
