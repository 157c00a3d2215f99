-- ===== src/Domain/Usage/Outage.antt =====
-- What an outage of the token source leaves of the state.
use codex_quota_glance.Prelude.{◌≡◌, if◌then◌else◌, none, Bool, false, ◌||◌, or_else, arith}
use codex_quota_glance.Domain.Usage.{
  UsageSource, no_source, TokenUsageState, is_session_log, is_sqlite, mark_unavailable,
}

abbrev is_local : UsageSource → Bool
is_local s = is_sqlite s || is_session_log s

-- After an outage no realtime value is shown: the current thread, the context window and the source
-- are gone and the state is not fresh. The last turn survives only from the session log, the
-- day's counts only from a local source, and the current thread becomes the last known one.
pub mark_unavailable_lem :
    (s : TokenUsageState)
    → let t = mark_unavailable s in
      (t.current_thread ≡ none)
      × (t.model_context_window ≡ none)
      × (t.source ≡ no_source)
      × (t.fresh ≡ false)
      × (t.last_turn ≡ (if is_session_log s.last_turn_source then s.last_turn else none))
      × (t.today ≡ (if is_local s.today_source then s.today else none))
      × (t.last_known ≡ or_else s.current_thread s.last_known)
      × (t.observed_at_unix_ms ≡ s.observed_at_unix_ms)
unfolding mark_unavailable
mark_unavailable_lem s = ground arith

-- A second outage changes nothing more.
pub mark_unavailable_idem :
    (s : TokenUsageState) → mark_unavailable (mark_unavailable s) ≡ mark_unavailable s
unfolding mark_unavailable
mark_unavailable_idem s = ground arith
