-- ===== src/Application/Coordinator/Tests.antt =====
-- The Rust tests of coordinator.rs and monitor.rs, and the theorems at concrete inputs.
use codex_quota_glance.Prelude.{ℕ, ◌≡◌, refl, List, [], ◌∷◌, none, some, false, inl, arith}
use codex_quota_glance.Prelude.Int.{pos}
use codex_quota_glance.Domain.Activity.{executing}
use codex_quota_glance.Domain.Quota.{QuotaValue, is_taskbar_visible, from_authoritative}
use codex_quota_glance.Domain.Usage.{UsageSource, no_counts}
use codex_quota_glance.Application.Snapshots.{RateLimitSnapshot, TokenUsageSnapshot}
use codex_quota_glance.Application.Monitor.{MonitorState, initial, apply_authoritative, is_older}
use codex_quota_glance.Application.Coordinator.{
  TelemetryUpdate, reset_account, rate_limits, activity, token_usage, local_today_usage,
  authoritative_unavailable, apply, run,
}
use codex_quota_glance.Application.Coordinator.Versions.{SameQuota, rate_limits_converge}
use codex_quota_glance.Application.Coordinator.Disconnect.{disconnect_atomic}
use codex_quota_glance.Application.Coordinator.Accounts.{reset_noninterference}
use codex_quota_glance.Application.Coordinator.Invariant.{IsValid, run-initial-IsValid}

abbrev quota : ℕ → ℕ → QuotaValue ℕ
quota used minutes = record {
  used_percent = used;
  remaining_percent = 60;
  window_minutes = some minutes;
  resets_at_unix = none;
}

abbrev weekly_only : ℕ → RateLimitSnapshot ℕ
weekly_only revision = record {
  five_hour = none;
  weekly = some (quota 40 10_080);
  observed_at_unix_ms = pos 20;
  revision = revision;
}

abbrev both_windows : ℕ → RateLimitSnapshot ℕ
both_windows revision = record {
  five_hour = some (quota 10 300);
  weekly = some (quota 20 10_080);
  observed_at_unix_ms = pos 10;
  revision = revision;
}

abbrev thread_counts : TokenUsageSnapshot
thread_counts = record {
  current_thread = some no_counts;
  last_turn = none;
  model_context_window = some 1000;
  today = none;
  observed_at_unix_ms = pos 15;
  source = UsageSource.app_server;
}

abbrev session : List (TelemetryUpdate ℕ)
session =
    rate_limits (both_windows 1)
    ∷ activity (executing ∷ []) (pos 11)
    ∷ token_usage thread_counts
    ∷ rate_limits (weekly_only 2)
    ∷ local_today_usage (some no_counts) (pos 30)
    ∷ []

abbrev two_snapshots : List (TelemetryUpdate ℕ)
two_snapshots = rate_limits (both_windows 1) ∷ rate_limits (weekly_only 2) ∷ []

weekly_only_hides_five_hour : is_taskbar_visible (run initial two_snapshots).five_hour ≡ false
unfolding run apply apply_authoritative is_older is_taskbar_visible from_authoritative
weekly_only_hides_five_hour = refl

rate_limits_converge_example :
    SameQuota
      (run initial (rate_limits (both_windows 1) ∷ rate_limits (weekly_only 2) ∷ []))
      (run initial (rate_limits (weekly_only 2) ∷ rate_limits (both_windows 1) ∷ []))
rate_limits_converge_example =
    rate_limits_converge initial (both_windows 1) (weekly_only 2) (inl (omega arith))

disconnect_atomic_example :
    (apply (run initial two_snapshots) (authoritative_unavailable (pos 40))).0.token_usage.fresh
    ≡ false
disconnect_atomic_example =
    (disconnect_atomic (run initial two_snapshots) (pos 40)
      (unfold run apply apply_authoritative is_older in refl)).3

abbrev other_account : MonitorState ℕ
other_account = record (initial {P = ℕ}) {
  token_usage = record ((initial {P = ℕ}).token_usage) { current_thread = some no_counts };
}

reset_noninterference_example :
    run initial (reset_account ∷ session) ≡ run other_account (reset_account ∷ session)
reset_noninterference_example =
    reset_noninterference initial other_account session refl refl refl refl

run-initial-IsValid_example : IsValid (run initial session)
run-initial-IsValid_example = run-initial-IsValid session
