-- ===== src/Domain/Usage.antt =====
-- crates/domain/src/usage.rs: token counts, their sources, and the state that the UI reads.
pub mod Outage
mod Tests
use codex_quota_glance.Prelude.{
  ℕ, if◌then◌else◌, Option, none, some, Bool, true, false, not, ◌||◌, or_else, ℕ_discrete,
}
use codex_quota_glance.Prelude.Int.{ℤ, pos}
use codex_quota_glance.Prelude.Words.{saturating_add}

pub data UsageSource : Type 0 where
  app_server session_log_fallback sqlite_fallback no_source : UsageSource

pub UsageSource-discrete : Discrete UsageSource
UsageSource-discrete = hlevel

-- The derived `==`, against each source that the code compares with.
unfoldable pub is_app_server : UsageSource → Bool
is_app_server app_server = true
is_app_server _ = false

unfoldable pub is_session_log : UsageSource → Bool
is_session_log session_log_fallback = true
is_session_log _ = false

unfoldable pub is_sqlite : UsageSource → Bool
is_sqlite sqlite_fallback = true
is_sqlite _ = false

unfoldable pub is_realtime : UsageSource → Bool
is_realtime app_server = true
is_realtime session_log_fallback = true
is_realtime _ = false

pub record TokenCounts : Type 0 where
  pub input : Option ℕ
  pub cached_input : Option ℕ
  pub cache_write_input : Option ℕ
  pub output : Option ℕ
  pub reasoning_output : Option ℕ
  pub total : Option ℕ

pub TokenCounts-discrete : Discrete TokenCounts
TokenCounts-discrete = hlevel ℕ_discrete

abbrev pub no_counts : TokenCounts
no_counts = record {
  input = none;
  cached_input = none;
  cache_write_input = none;
  output = none;
  reasoning_output = none;
  total = none;
}

total_of : Option ℕ → Option ℕ → Option ℕ → Option ℕ
total_of (some input) (some output) total = some (saturating_add input output)
total_of _ _ total = total

unfoldable pub display_total : TokenCounts → Option ℕ
unfolding total_of saturating_add
display_total counts = total_of counts.input counts.output counts.total

pub record TokenUsageState : Type 0 where
  pub current_thread : Option TokenCounts
  pub last_turn : Option TokenCounts
  pub last_turn_source : UsageSource
  pub model_context_window : Option ℕ
  pub today : Option TokenCounts
  pub today_source : UsageSource
  pub today_is_partial : Bool
  pub source : UsageSource
  pub fresh : Bool
  pub observed_at_unix_ms : ℤ
  pub last_known : Option TokenCounts

abbrev pub no_usage : TokenUsageState
no_usage = record {
  current_thread = none;
  last_turn = none;
  last_turn_source = no_source;
  model_context_window = none;
  today = none;
  today_source = no_source;
  today_is_partial = false;
  source = no_source;
  fresh = false;
  observed_at_unix_ms = pos 0;
  last_known = none;
}

-- The two conditional assignments of `mark_unavailable`, and the method.
drop_last_turn : TokenUsageState → TokenUsageState
unfolding is_session_log
drop_last_turn s =
    if not (is_session_log s.last_turn_source)
    then record s { last_turn = none; last_turn_source = no_source }
    else s

drop_today : TokenUsageState → TokenUsageState
unfolding is_sqlite is_session_log
drop_today s =
    if not (is_sqlite s.today_source || is_session_log s.today_source)
    then record s { today = none; today_source = no_source; today_is_partial = false }
    else s

unfoldable pub mark_unavailable : TokenUsageState → TokenUsageState
unfolding drop_last_turn drop_today
mark_unavailable s =
    let s1 =
      drop_last_turn
        (record s { last_known = or_else s.current_thread s.last_known; current_thread = none }) in
    let s2 = drop_today (record s1 { model_context_window = none }) in
    record s2 { source = no_source; fresh = false }
