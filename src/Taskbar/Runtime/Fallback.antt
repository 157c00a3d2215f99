-- ===== src/Taskbar/Runtime/Fallback.antt =====
-- apps/codex-taskbar/src/official_runtime.rs: what the local databases say, as the coordinator
-- and the ledger take it. Reading a database is a parameter.
use codex_quota_glance.Prelude.{
  ℕ, if◌then◌else◌, List, [], ◌∷◌, map, Option, none, some, Bool, true, false, ◌&&◌, ◌||◌, is_some,
  or_else, String, ◌>>=◌,
}
use codex_quota_glance.Prelude.Int.{ℤ}
use codex_quota_glance.Prelude.Words.{saturating_add}
use codex_quota_glance.Domain.Activity.{ActivityState}
use codex_quota_glance.Domain.Usage.{UsageSource, display_total}
use codex_quota_glance.Application.Monitor.{MonitorState}
use codex_quota_glance.Application.Snapshots.{TokenUsageSnapshot}
use codex_quota_glance.Application.Coordinator.{activity, token_usage, local_today_usage, apply}
use codex_quota_glance.Application.Ledger.Books.{
  LocalUsageLedger, LocalUsageClock, ThreadTokenCounter, observe, today_counts,
}

pub record ThreadTokenTotal : Type 0 where
  pub thread_id : String
  pub tokens_used : ℕ

pub record FallbackSnapshot : Type 0 where
  pub latest_thread_id : Option String
  pub latest_turn_id : Option String
  pub latest_item_id : Option String
  pub activity : ActivityState
  pub input_tokens : Option ℕ
  pub output_tokens : Option ℕ
  pub cached_input_tokens : Option ℕ
  pub total_tokens : Option ℕ
  pub raw_thread_tokens_used : Option ℕ
  pub thread_token_totals : List ThreadTokenTotal
  pub is_stale_fallback : Bool
  pub activity_is_low_confidence : Bool
  pub activity_stale_after_unix_ms : Option ℤ
  pub observed_at_unix_ms : ℤ

sum_of : Option ℕ → Option ℕ → Option ℕ
unfolding saturating_add
sum_of (some input) (some output) = some (saturating_add input output)
sum_of _ _ = none

fallback_total : FallbackSnapshot → Option ℕ
unfolding sum_of
fallback_total n =
    or_else n.raw_thread_tokens_used
      (or_else n.total_tokens (sum_of n.input_tokens n.output_tokens))

pub fallback_usage : FallbackSnapshot → TokenUsageSnapshot
unfolding fallback_total
fallback_usage n = record {
  current_thread = some (record {
    input = n.input_tokens;
    cached_input = n.cached_input_tokens;
    cache_write_input = none;
    output = n.output_tokens;
    reasoning_output = none;
    total = fallback_total n;
  });
  last_turn = none;
  model_context_window = none;
  today = none;
  observed_at_unix_ms = n.observed_at_unix_ms;
  source = UsageSource.sqlite_fallback;
}

pub has_tokens : FallbackSnapshot → Bool
unfolding fallback_total
has_tokens n =
    is_some (fallback_total n)
    || (is_some n.input_tokens || (is_some n.output_tokens || is_some n.cached_input_tokens))

pub is_no_source : UsageSource → Bool
is_no_source UsageSource.no_source = true
is_no_source _ = false

abbrev pub counters : FallbackSnapshot → List ThreadTokenCounter
counters n =
    map (λ t. record { thread_id = t.thread_id; tokens_used = t.tokens_used }) n.thread_token_totals

-- The coordinator's state and the ledger.
abbrev pub Books : Type 0 → Type 0
Books P = MonitorState P × LocalUsageLedger

module _ {P : Type 0} where
  unfoldable pub apply_fallback_tokens : MonitorState P → FallbackSnapshot → MonitorState P
  unfolding has_tokens fallback_usage
  apply_fallback_tokens s n =
      if has_tokens n then (apply s (token_usage (fallback_usage n))).0 else s

  unfoldable pub apply_local_today_usage : LocalUsageClock → FallbackSnapshot → Books P → Books P
  unfolding is_no_source
  apply_local_today_usage clock n b =
      let seen = observe b.1 clock (counters n) in
      (
        if seen.1 || is_no_source b.0.token_usage.today_source
            then (apply b.0
                (local_today_usage (today_counts seen.0 clock.day_key) n.observed_at_unix_ms)).0
            else b.0,
        seen.0,
      )

  pub has_live_usage : MonitorState P → (authoritative_healthy : Bool) → Bool
  has_live_usage s authoritative_healthy =
      authoritative_healthy && is_some (s.token_usage.current_thread >>= display_total)

  -- The first half of `apply_fallback`, which looks at the state database.
  unfoldable pub apply_state_snapshot :
      (authoritative_healthy session_today_authoritative : Bool)
      → LocalUsageClock
      → Option FallbackSnapshot
      → Books P
      → Books P
  unfolding apply_local_today_usage has_live_usage apply_fallback_tokens
  apply_state_snapshot healthy today_known clock none b = b
  apply_state_snapshot healthy today_known clock (some n) b =
      let b' = if today_known then b else apply_local_today_usage clock n b in
      (if has_live_usage b'.0 healthy then b'.0 else apply_fallback_tokens b'.0 n, b'.1)

  -- The second half, which looks at the history.
  unfoldable pub apply_history :
      (has_app_server_activity : Bool) → Option FallbackSnapshot → MonitorState P → MonitorState P
  apply_history true n s = s
  apply_history false none s = s
  apply_history false (some n) s = (apply s (activity (n.activity ∷ []) n.observed_at_unix_ms)).0

  unfoldable pub apply_fallback :
      (authoritative_healthy has_app_server_activity session_today_authoritative : Bool)
      → LocalUsageClock
      → (state history : Option FallbackSnapshot) → Books P
      → Books P
  unfolding apply_state_snapshot apply_history
  apply_fallback healthy live today_known clock state history b =
      let b' = apply_state_snapshot healthy today_known clock state b in
      (apply_history live history b'.0, b'.1)
