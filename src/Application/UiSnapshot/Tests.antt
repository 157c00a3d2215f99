-- ===== src/Application/UiSnapshot/Tests.antt =====
-- The Rust tests of ui_snapshot.rs, and the theorems at concrete inputs.
use codex_quota_glance.Prelude.{ℕ, ◌≡◌, refl, none, some, true, false, [], String}
use codex_quota_glance.Prelude.F32.{whole}
use codex_quota_glance.Domain.Quota.{QuotaValue, no_window, from_authoritative}
use codex_quota_glance.Domain.Official.{OfficialSnapshot, empty_snapshot}
use codex_quota_glance.Application.Monitor.{MonitorState, initial}
use codex_quota_glance.Application.UiSnapshot.{from_monitor_state}
use codex_quota_glance.Application.UiSnapshot.Redaction.{redact, snapshot_noninterference}

abbrev used_up : QuotaValue ℕ
used_up = record {
  used_percent = 100;
  remaining_percent = 0;
  window_minutes = some 300;
  resets_at_unix = none;
}

abbrev with_thread : String → OfficialSnapshot ℕ
with_thread name = record (empty_snapshot {P = ℕ}) {
  credits = some (record { has_credits = true; unlimited = false; balance = some "12" });
  account_usage = some (record {
    lifetime_tokens = some 5;
    peak_daily_tokens = none;
    longest_running_turn_seconds = none;
    current_streak_days = none;
    longest_streak_days = none;
    daily_usage = [];
    latest_daily_date = none;
    latest_daily_tokens = none;
    thread_usage = some (record {
      thread_id = name;
      estimated_usage_usd_micros = some 7;
      estimated_usage_credits_micros = 3;
      groups = [];
    });
  });
}

abbrev exhausted : String → MonitorState ℕ
exhausted name = record (initial {P = ℕ}) {
  five_hour = from_authoritative (some used_up) no_window;
  official = some (with_thread name);
}

snapshot_noninterference_example :
    from_monitor_state ⦃f = whole⦄ (exhausted "a") ≡ from_monitor_state ⦃f = whole⦄ (exhausted "b")
snapshot_noninterference_example =
    (snapshot_noninterference ⦃f = whole⦄ (exhausted "a") (exhausted "b") (unfold redact in refl)).0
