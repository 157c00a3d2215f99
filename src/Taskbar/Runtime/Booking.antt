-- ===== src/Taskbar/Runtime/Booking.antt =====
-- apps/codex-taskbar/src/official_runtime.rs: what is booked in the ledger, and what the
-- coordinator takes from the local databases.
use codex_quota_glance.Prelude.{
  ◌≡◌, refl, if◌then◌else◌, List, [], ◌∷◌, map, Option, none, some, Bool, true, false, ◌&&◌, ◌||◌,
  Bool-cases, inl, inr,
}
use codex_quota_glance.Prelude.Int.{ℤ}
use codex_quota_glance.Application.Monitor.{MonitorState}
use codex_quota_glance.Application.Coordinator.{
  TelemetryUpdate, activity, token_usage, local_today_usage, apply,
}
use codex_quota_glance.Application.Ledger.Books.{
  LocalUsageLedger, LocalUsageClock, observe, today_counts, clear,
}
use codex_quota_glance.Application.Ledger.Invariant.{
  observes, replaces, records, clears, saves, operate,
}
use codex_quota_glance.Taskbar.Sessions.Events.{SessionTokenEvent}
use codex_quota_glance.Taskbar.Sessions.Tailer.{SessionTokenBatch}
use codex_quota_glance.Taskbar.Runtime.Fallback.{
  FallbackSnapshot, counters, has_tokens, fallback_usage, apply_fallback_tokens, is_no_source,
  apply_local_today_usage, has_live_usage, apply_state_snapshot, apply_history, Books,
}
use codex_quota_glance.Taskbar.Runtime.Steps.{priced, observe_events, has_events, book, flush}
use codex_quota_glance.Taskbar.Runtime.Relation.{
  Booked, Ran, nothing-Booked, one-Booked, one_calm, Booked-trans, nothing-Ran, one-Ran, Ran-trans,
}
use codex_quota_glance.Taskbar.Runtime.Rounds.{
  SettingsAction, manual_refresh, show_history, clear_history, check_updates, download_update,
  export_diagnostics, act, process_settings_actions,
}

pub or_right : (a b : Bool) → b ≡ true → (a || b) ≡ true
or_right true b h = refl
or_right false b h = h

pub flush-Booked : (b saved : Bool) (l : LocalUsageLedger) → Booked b l (flush saved l)
unfolding flush operate
flush-Booked b saved l = elim (Bool-cases (l.dirty && saved)) [
  | inl e ↦ rw e (one_calm b l saves refl)
  | inr e ↦ rw e (nothing-Booked b l)
]

observe_events-Booked :
    (b : Bool) (day_key : ℤ) (es : List SessionTokenEvent) (l : LocalUsageLedger)
    → Booked b l (observe_events day_key es l)
unfolding observe_events operate
observe_events-Booked b day_key [] l = nothing-Booked b l
observe_events-Booked b day_key (e ∷ es) l =
    let clock : LocalUsageClock = record { day_key = day_key; hour = e.local_hour } in
    let l' = operate l (records clock e.counts (priced e).2) in
    Booked-trans b l l' (observe_events day_key es l')
      (one_calm b l (records clock e.counts (priced e).2) refl)
      (observe_events-Booked b day_key es l')

pub book-Booked :
    (b : Bool) (day_key : ℤ) (batch : SessionTokenBatch) (l : LocalUsageLedger)
    → Booked b l (book day_key batch l)
unfolding book operate
book-Booked b day_key batch l = elim (Bool-cases (batch.bootstrap && has_events batch.events)) [
  | inl e ↦ rw e (one_calm b l (replaces day_key (map priced batch.events)) refl)
  | inr e ↦ elim (Bool-cases batch.bootstrap) [
    | inl first ↦ rw (e, first) (nothing-Booked b l)
    | inr later ↦ rw (e, later) (observe_events-Booked b day_key batch.events l)
  ]
]

act-Booked :
    (b connected saved : Bool) (a : SettingsAction) (l : LocalUsageLedger)
    → Booked b l (act connected saved a l).0
unfolding act operate
act-Booked b connected saved manual_refresh l = nothing-Booked b l
act-Booked b connected saved show_history l = nothing-Booked b l
act-Booked b connected saved clear_history l =
    Booked-trans b l (clear l) (flush saved (clear l)) (one_calm b l clears refl)
      (flush-Booked b saved (clear l))
act-Booked b connected saved check_updates l = nothing-Booked b l
act-Booked b connected saved download_update l = nothing-Booked b l
act-Booked b connected saved export_diagnostics l = nothing-Booked b l

pub process_settings_actions-Booked :
    (b connected saved : Bool) (actions : List SettingsAction) (l : LocalUsageLedger)
    → Booked b l (process_settings_actions connected saved actions l).0
unfolding process_settings_actions
process_settings_actions-Booked b connected saved [] l = nothing-Booked b l
process_settings_actions-Booked b connected saved (a ∷ more) l =
    let done = (act connected saved a l).0 in
    Booked-trans b l done (process_settings_actions connected saved more done).0
      (act-Booked b connected saved a l)
      (process_settings_actions-Booked b connected saved more done)

apply_fallback_tokens-Ran :
    {P : Type 0} → (s : MonitorState P) (n : FallbackSnapshot) → Ran s (apply_fallback_tokens s n)
unfolding apply_fallback_tokens
apply_fallback_tokens-Ran s n = elim (Bool-cases (has_tokens n)) [
  | inl e ↦ rw e (one-Ran s (token_usage (fallback_usage n)))
  | inr e ↦ rw e (nothing-Ran s)
]

module _ {P : Type 0} where
  today-Ran :
      (b : Bool) (s : MonitorState P) (u : TelemetryUpdate P)
      → Ran s (if b then (apply s u).0 else s)
  today-Ran true s u = one-Ran s u
  today-Ran false s u = nothing-Ran s

  usage-Ran :
      (b : Bool) (s : MonitorState P) (n : FallbackSnapshot)
      → Ran s (if b then s else apply_fallback_tokens s n)
  usage-Ran true s n = nothing-Ran s
  usage-Ran false s n = apply_fallback_tokens-Ran s n

  pub apply_state_snapshot-Ran :
      (healthy today_known : Bool) (clock : LocalUsageClock) (x : Option FallbackSnapshot)
      (b : Books P)
      → Ran b.0 (apply_state_snapshot healthy today_known clock x b).0
  unfolding apply_state_snapshot apply_local_today_usage
  apply_state_snapshot-Ran healthy today_known clock none b = nothing-Ran b.0
  apply_state_snapshot-Ran healthy true clock (some n) b =
      usage-Ran (has_live_usage b.0 healthy) b.0 n
  apply_state_snapshot-Ran healthy false clock (some n) b =
      let after = (apply_local_today_usage clock n b).0 in
      let seen = observe b.1 clock (counters n) in
      Ran-trans b.0 after _
        (today-Ran (seen.1 || is_no_source b.0.token_usage.today_source) b.0
          (local_today_usage (today_counts seen.0 clock.day_key) n.observed_at_unix_ms))
        (usage-Ran (has_live_usage after healthy) after n)

  pub apply_state_snapshot-Booked :
      (healthy today_known : Bool) (clock : LocalUsageClock) (x : Option FallbackSnapshot)
      (b : Books P)
      → Booked today_known b.1 (apply_state_snapshot healthy today_known clock x b).1
  unfolding apply_state_snapshot apply_local_today_usage operate
  apply_state_snapshot-Booked healthy today_known clock none b = nothing-Booked today_known b.1
  apply_state_snapshot-Booked healthy true clock (some n) b = nothing-Booked true b.1
  apply_state_snapshot-Booked healthy false clock (some n) b =
      one-Booked false b.1 (observes clock (counters n)) refl

  pub apply_history-Ran :
      (live : Bool) (x : Option FallbackSnapshot) (s : MonitorState P)
      → Ran s (apply_history live x s)
  unfolding apply_history
  apply_history-Ran true x s = nothing-Ran s
  apply_history-Ran false none s = nothing-Ran s
  apply_history-Ran false (some n) s = one-Ran s (activity (n.activity ∷ []) n.observed_at_unix_ms)
