-- ===== src/Taskbar/Runtime/Sound.antt =====
-- apps/codex-taskbar/src/official_runtime.rs: every round of the loop keeps to the operations of
-- the coordinator and of the ledger.
mod Steps
use codex_quota_glance.Taskbar.Runtime.Sound.Steps.{
  fallback_step-Sound, session_step-Sound, reload_step-Sound, flush_step-Sound,
}
use codex_quota_glance.Prelude.{
  ℕ, ◌≡◌, refl, sym, subst, leb, ◌-◌, List, [], ◌∷◌, ◌++◌, All, Option, none, some, Bool, true,
  false, ◌&&◌, ◌||◌, Bool-cases, inl, inr,
}
use codex_quota_glance.Application.Coordinator.{token_usage, local_today_usage, apply}
use codex_quota_glance.Application.Coordinator.Invariant.{IsValid, run-initial-IsValid}
use codex_quota_glance.Application.Ledger.Books.{LocalUsageLedger, today_counts}
use codex_quota_glance.Application.Ledger.Invariant.{
  Operation, retains, operate, operate_all, IsLedger, operate_all-IsLedger,
}
use codex_quota_glance.Settings.Config.{AppConfig}
use codex_quota_glance.AppServer.Session.{SessionUpdate}
use codex_quota_glance.Taskbar.Sessions.Events.{SessionTokenEvent}
use codex_quota_glance.Taskbar.Sessions.Tailer.{SessionTokenBatch}
use codex_quota_glance.Taskbar.Runtime.Updates.{apply_session_update, session_updates}
use codex_quota_glance.Taskbar.Runtime.Fallback.{
  FallbackSnapshot, apply_state_snapshot, apply_history, apply_fallback, Books,
}
use codex_quota_glance.Taskbar.Runtime.Lease.{is_live_at}
use codex_quota_glance.Taskbar.Runtime.Steps.{
  Runtime, HostCall, Clocks, take_update, receive_update, look_back, fallback_step,
  fallback_poll_interval, has_events, last_of, book, session_usage, show_event, show_events,
  take_batch, session_step, session_token_poll_interval, reload_step, flush_step,
  local_ledger_flush_interval,
}
use codex_quota_glance.Taskbar.Runtime.Booking.{
  or_right, flush-Booked, book-Booked, process_settings_actions-Booked, apply_state_snapshot-Ran,
  apply_state_snapshot-Booked, apply_history-Ran,
}
use codex_quota_glance.Taskbar.Runtime.Relation.{
  Booked, Sound, nothing-Booked, one_calm, nothing-Ran, one-Ran, Ran-trans, Sound-refl, Sound-trans,
  Booked-Sound, is_counting,
}
use codex_quota_glance.Taskbar.Runtime.Rounds.{
  process_settings_actions, Round, finish_round, after_session, round, run_rounds, new_runtime,
}

module _ {V P : Type 0} where
  receive_update-Sound :
      (c : Clocks) (x : Option (SessionUpdate V P)) (r : Runtime P)
      → Sound r (receive_update c x r).0
  unfolding receive_update take_update apply_session_update
  receive_update-Sound c none r = Sound-refl r
  receive_update-Sound c (some u) r = record {
    coordinated = (session_updates u c.now c.later, refl);
    booked = nothing-Booked r.session_today_authoritative r.ledger;
    in_charge = λ h. h;
  }

  finish_round-Sound : (x : Round V P) (r : Runtime P) → Sound r (finish_round x r).runtime
  unfolding finish_round
  finish_round-Sound x r =
      let reloaded = (reload_step x.loaded r).0 in
      let flushed = flush_step x.at_flush x.saved reloaded in
      let acted = (process_settings_actions x.connected x.saved x.actions flushed.ledger).0 in
      Sound-trans r reloaded (record flushed { ledger = acted }) (reload_step-Sound x.loaded r)
        (Sound-trans reloaded flushed (record flushed { ledger = acted })
          (flush_step-Sound x.at_flush x.saved reloaded)
          (Booked-Sound flushed acted (
            process_settings_actions-Booked flushed.session_today_authoritative x.connected x.saved
              x.actions flushed.ledger)))

  after_session-Sound :
      (x : Round V P) (calls : List (HostCall P)) (r : Runtime P) (skipped : Bool)
      → Sound r (after_session x calls r skipped).runtime
  unfolding after_session
  after_session-Sound x calls r true = Sound-refl r
  after_session-Sound x calls r false = finish_round-Sound x r

  round-Sound : (x : Round V P) (r : Runtime P) → Sound r (round x r).runtime
  unfolding round
  round-Sound x r =
      let received = receive_update x.at_update x.update r in
      let looked = fallback_step x.at_fallback x.found received.0 in
      let listened = session_step x.at_session x.batch looked.0 in
      Sound-trans r received.0 (round x r).runtime (receive_update-Sound x.at_update x.update r) (
        Sound-trans received.0 looked.0 (round x r).runtime
          (fallback_step-Sound x.at_fallback x.found received.0)
          (Sound-trans looked.0 listened.0 (round x r).runtime
            (session_step-Sound x.at_session x.batch looked.0)
            (after_session-Sound x (received.1 ++ (looked.1 ++ listened.1.0)) listened.0
              listened.1.1)))

  run_rounds-Sound : (xs : List (Round V P)) (r : Runtime P) → Sound r (run_rounds xs r)
  unfolding run_rounds
  run_rounds-Sound [] r = Sound-refl r
  run_rounds-Sound (x ∷ xs) r = elim (Bool-cases (round x r).goes_on) [
    | inl e ↦ rw e (
        Sound-trans r (round x r).runtime (run_rounds xs (round x r).runtime) (round-Sound x r)
          (run_rounds-Sound xs (round x r).runtime))
    | inr e ↦ rw e (round-Sound x r)
  ]

-- From a ledger in order, after any rounds of the loop both quota windows are consistent and the
-- token state is honest, and the ledger's days are sorted, add up hour by hour, and are at most as
-- many as are retained.
run_rounds-IsSound :
    {V P : Type 0}
    → (settings : AppConfig) (ledger : LocalUsageLedger) (start_fallback start_session start : ℕ)
      (xs : List (Round V P))
    → IsLedger ledger
    → let t = run_rounds xs (new_runtime settings ledger start_fallback start_session start) in
      IsValid t.coordinator × IsLedger t.ledger
run_rounds-IsSound settings ledger start_fallback start_session start xs l =
    let sound =
      run_rounds-Sound xs (new_runtime settings ledger start_fallback start_session start) in
    (
      subst IsValid (sym sound.coordinated.1) (run-initial-IsValid sound.coordinated.0),
      subst IsLedger (sym sound.booked.1.1) (operate_all-IsLedger ledger sound.booked.0 l),
    )
