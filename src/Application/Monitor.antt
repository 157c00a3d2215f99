-- ===== src/Application/Monitor.antt =====
-- crates/application/src/monitor.rs: the one state behind the UI, and its arbitration.
use codex_quota_glance.Prelude.{
  ℕ, if◌then◌else◌, ltb, ◌==◌, List, Option, none, some, Bool, true, false, not, ◌&&◌, ◌||◌,
  is_some, or_else, ite, ◌>>=◌,
}
use codex_quota_glance.Prelude.Int.{ℤ, pos, ltb_ℤ, max_ℤ}
use codex_quota_glance.Domain.Activity.{ActivityState, ActivityState-discrete, aggregate}
use codex_quota_glance.Domain.Quota.{
  QuotaValue, QuotaWindowState, no_window, from_authoritative, unavailable, with_session_fallback,
}
use codex_quota_glance.Domain.Usage.{
  UsageSource, TokenCounts, TokenCounts-discrete, TokenUsageState, no_usage, is_app_server,
  is_sqlite, is_realtime, mark_unavailable,
}
use codex_quota_glance.Domain.Official.{OfficialSnapshot, OfficialThreadUsage, cached_snapshot}
use codex_quota_glance.Application.Snapshots.{RateLimitSnapshot, TokenUsageSnapshot}

pub record MonitorState (P : Type 0) : Type 0 where
  pub five_hour : QuotaWindowState P
  pub weekly : QuotaWindowState P
  pub activity : ActivityState
  pub activity_entered_at_unix_ms : ℤ
  pub token_usage : TokenUsageState
  pub official : Option (OfficialSnapshot P)
  pub observed_at_unix_ms : ℤ
  pub revision : ℕ

-- The derived `==` of `Option<TokenCounts>`.
same_counts : Option TokenCounts → Option TokenCounts → Bool
same_counts none none = true
same_counts (some a) (some b) = ite (TokenCounts-discrete a b) true false
same_counts _ _ = false

-- The guard of `apply_authoritative`: the first version is behind the second.
unfoldable pub is_older :
    (revision : ℕ) (observed_at : ℤ) (than_revision : ℕ) (than_observed_at : ℤ) → Bool
is_older r t r' t' = ltb r r' || (r == r' && ltb_ℤ t t')

module _ {P : Type 0} where
  abbrev pub initial : MonitorState P
  initial = record {
    five_hour = no_window;
    weekly = no_window;
    activity = ActivityState.unknown;
    activity_entered_at_unix_ms = pos 0;
    token_usage = no_usage;
    official = none;
    observed_at_unix_ms = pos 0;
    revision = 0;
  }

  unfoldable pub official_thread_usage : MonitorState P → Option OfficialThreadUsage
  official_thread_usage s = s.official >>= λ o. o.account_usage >>= λ u. u.thread_usage

  unfoldable pub reset_account_scoped_state : MonitorState P → MonitorState P
  reset_account_scoped_state s = record s {
    five_hour = no_window;
    weekly = no_window;
    token_usage = no_usage;
    official = none;
  }

  unfoldable pub apply_authoritative : MonitorState P → RateLimitSnapshot P → MonitorState P × Bool
  apply_authoritative s n =
      if is_older n.revision n.observed_at_unix_ms s.revision s.observed_at_unix_ms
      then (s, false)
      else (
        record s {
          five_hour = from_authoritative n.five_hour s.five_hour;
          weekly = from_authoritative n.weekly s.weekly;
          observed_at_unix_ms = n.observed_at_unix_ms;
          revision = n.revision;
        },
        true,
      )

  unfoldable pub mark_rate_limits_unavailable : MonitorState P → MonitorState P
  mark_rate_limits_unavailable s = record s {
    five_hour = unavailable s.five_hour;
    weekly = unavailable s.weekly;
  }

  unfoldable pub apply_session_fallback :
      MonitorState P → Option (QuotaValue P) → Option (QuotaValue P) → MonitorState P
  apply_session_fallback s five_hour weekly = record s {
    five_hour = with_session_fallback s.five_hour five_hour;
    weekly = with_session_fallback s.weekly weekly;
  }

  unfoldable pub update_activity_at : MonitorState P → List ActivityState → ℤ → MonitorState P
  update_activity_at s states observed_at =
      let activity = aggregate states in
      ite (ActivityState-discrete activity s.activity) s
        (record s { activity = activity; activity_entered_at_unix_ms = observed_at })

  unfoldable pub update_activity : MonitorState P → List ActivityState → MonitorState P
  unfolding update_activity_at
  update_activity s states = update_activity_at s states s.observed_at_unix_ms

-- The successive assignments of `apply_token_usage`.
take_last_turn : TokenUsageSnapshot → TokenUsageState → TokenUsageState
take_last_turn n t =
    if is_some n.last_turn
    then record t { last_turn = n.last_turn; last_turn_source = n.source }
    else t

take_today : TokenUsageSnapshot → TokenUsageState → TokenUsageState
take_today n t =
    if is_some n.today || not (is_sqlite t.today_source)
    then record t { today = n.today; today_source = n.source; today_is_partial = false }
    else t

unfoldable pub take_token_usage : TokenUsageSnapshot → TokenUsageState → TokenUsageState
unfolding take_last_turn take_today
take_token_usage n t =
    let t1 = take_last_turn n (record t { current_thread = n.current_thread }) in
    let t2 = take_today n (record t1 { model_context_window = n.model_context_window }) in
    record t2 {
      source = n.source;
      fresh = is_realtime n.source;
      observed_at_unix_ms = n.observed_at_unix_ms;
      last_known = or_else t2.current_thread t2.last_known;
    }

module _ {P : Type 0} where
  unfoldable pub apply_token_usage : MonitorState P → TokenUsageSnapshot → MonitorState P × Bool
  unfolding take_token_usage
  apply_token_usage s n =
      if ltb_ℤ n.observed_at_unix_ms s.token_usage.observed_at_unix_ms
      then (s, false)
      else (record s { token_usage = take_token_usage n s.token_usage }, true)

  unfoldable pub apply_local_today_usage :
      MonitorState P → Option TokenCounts → ℤ → MonitorState P × Bool
  unfolding same_counts
  apply_local_today_usage s counts observed_at =
      let t = s.token_usage in
      if is_some t.today && (is_app_server t.today_source && t.fresh)
      then (s, false)
      else if same_counts t.today counts && (is_sqlite t.today_source && t.today_is_partial)
      then (s, false)
      else (
        record s {
          token_usage = record t {
            today = counts;
            today_source = UsageSource.sqlite_fallback;
            today_is_partial = true;
            observed_at_unix_ms = max_ℤ t.observed_at_unix_ms observed_at;
          };
        },
        true,
      )

  unfoldable pub mark_token_usage_unavailable : MonitorState P → MonitorState P
  mark_token_usage_unavailable s = record s { token_usage = mark_unavailable s.token_usage }

  unfoldable pub apply_official : MonitorState P → OfficialSnapshot P → MonitorState P × Bool
  apply_official s n = (record s { official = some n }, true)

  cached_option : Option (OfficialSnapshot P) → Option (OfficialSnapshot P)
  cached_option none = none
  cached_option (some n) = some (cached_snapshot n)

  unfoldable pub mark_official_cached : MonitorState P → MonitorState P
  unfolding cached_option
  mark_official_cached s = record s { official = cached_option s.official }
