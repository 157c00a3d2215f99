-- ===== src/Taskbar/Runtime/Logs/Booked.antt =====
-- apps/codex-taskbar/src/official_runtime.rs: the ledger after any rounds, once the session logs are
-- in charge of the day.
use codex_quota_glance.Prelude.{
  ◌-◌, ◌≡◌, refl, sym, ap, ◌∙◌, leb, if◌then◌else◌, List, [], ◌∷◌, ◌++◌, Option, none, some, Bool,
  true, false, not, ◌&&◌, ◌||◌, Bool-cases, inl, inr,
}
use codex_quota_glance.Prelude.Int.{ℤ}
use codex_quota_glance.Application.Ledger.Books.{LocalUsageLedger, clear}
use codex_quota_glance.Application.Ledger.Invariant.{retains, operate, operate_all}
use codex_quota_glance.AppServer.Session.{SessionUpdate}
use codex_quota_glance.Taskbar.Sessions.Events.{SessionTokenEvent}
use codex_quota_glance.Taskbar.Sessions.Tailer.{SessionTokenBatch}
use codex_quota_glance.Taskbar.Runtime.Fallback.{
  FallbackSnapshot, apply_fallback, apply_state_snapshot,
}
use codex_quota_glance.Taskbar.Runtime.Lease.{is_live_at}
use codex_quota_glance.Taskbar.Runtime.Steps.{
  Runtime, HostCall, Clocks, observe_events, has_events, book, flush, receive_update, take_update,
  fallback_step, look_back, session_step, take_batch, show_events, show_event, reload_step,
  flush_step, fallback_poll_interval, session_token_poll_interval, local_ledger_flush_interval,
}
use codex_quota_glance.Taskbar.Runtime.Rounds.{
  SettingsAction, manual_refresh, show_history, clear_history, check_updates, download_update,
  export_diagnostics, act, process_settings_actions, Round, finish_round, after_session, round,
  run_rounds,
}
use codex_quota_glance.Taskbar.Runtime.Booking.{or_right}
use codex_quota_glance.Taskbar.Runtime.Relation.{operate_all-append}
use codex_quota_glance.Taskbar.Runtime.Logs.{
  LogState, log_of, event_operations, batch_operations, is_empty, reload_operations,
  flush_operations, action_operations, is_polled, is_flushed, listened, reloaded, flushed, acted,
  finished, is_skipped, logged, keeps_on, log_operations,
}

observe_events-log :
    (day_key : ℤ) (es : List SessionTokenEvent) (l : LocalUsageLedger)
    → observe_events day_key es l ≡ operate_all l (event_operations day_key es)
unfolding observe_events event_operations operate_all operate
observe_events-log day_key [] l = refl
observe_events-log day_key (e ∷ es) l = observe_events-log day_key es _

book-log :
    (day_key : ℤ) (batch : SessionTokenBatch) (l : LocalUsageLedger)
    → book day_key batch l ≡ operate_all l (batch_operations day_key (some batch))
unfolding book batch_operations operate_all operate
book-log day_key batch l = elim (Bool-cases (batch.bootstrap && has_events batch.events)) [
  | inl e ↦ rw e refl
  | inr e ↦ elim (Bool-cases batch.bootstrap) [
    | inl first ↦ rw (e, first) refl
    | inr later ↦ rw (e, later) (observe_events-log day_key batch.events l)
  ]
]

flush-log :
    (saved : Bool) (l : LocalUsageLedger) → flush saved l ≡ operate_all l (flush_operations saved l)
unfolding flush flush_operations operate_all operate
flush-log saved l = elim (Bool-cases (l.dirty && saved)) [ inl e ↦ rw e refl | inr e ↦ rw e refl ]

process_settings_actions-log :
    (connected saved : Bool) (actions : List SettingsAction) (l : LocalUsageLedger)
    → (process_settings_actions connected saved actions l).0
      ≡ operate_all l (action_operations saved actions l)
unfolding process_settings_actions act action_operations operate_all operate
process_settings_actions-log connected saved [] l = refl
process_settings_actions-log connected saved (clear_history ∷ more) l =
    let cleared = flush_operations saved (clear l) in
    let rest = action_operations saved more (operate_all (clear l) cleared) in
    ap (λ m. (process_settings_actions connected saved more m).0) (flush-log saved (clear l))
    ∙ process_settings_actions-log connected saved more (operate_all (clear l) cleared)
    ∙ sym (operate_all-append (clear l) cleared rest)
process_settings_actions-log connected saved (manual_refresh ∷ more) l =
    process_settings_actions-log connected saved more l
process_settings_actions-log connected saved (show_history ∷ more) l =
    process_settings_actions-log connected saved more l
process_settings_actions-log connected saved (check_updates ∷ more) l =
    process_settings_actions-log connected saved more l
process_settings_actions-log connected saved (download_update ∷ more) l =
    process_settings_actions-log connected saved more l
process_settings_actions-log connected saved (export_diagnostics ∷ more) l =
    process_settings_actions-log connected saved more l

module _ {P : Type 0} where
  -- The ledger and the times of a state, and whether the logs are in charge.
  abbrev view : Runtime P → LogState × Bool
  view r = (log_of r, r.session_today_authoritative)

  receive_update-view :
      {V : Type 0}
      → (c : Clocks) (u : Option (SessionUpdate V P)) (r : Runtime P)
      → view (receive_update c u r).0 ≡ view r
  unfolding receive_update take_update
  receive_update-view c none r = refl
  receive_update-view c (some u) r = refl

  apply_fallback-ledger :
      (healthy live : Bool) (c : Clocks) (state history : Option FallbackSnapshot) (r : Runtime P)
      → (apply_fallback healthy live true c.local state history (r.coordinator, r.ledger)).1
        ≡ r.ledger
  unfolding apply_fallback apply_state_snapshot
  apply_fallback-ledger healthy live c none history r = refl
  apply_fallback-ledger healthy live c (some n) history r = refl

  look_back-view :
      (c : Clocks) (found : Option (Option FallbackSnapshot × Option FallbackSnapshot))
      (r : Runtime P)
      → r.session_today_authoritative ≡ true
      → view (look_back c found r).0 ≡ view r
  unfolding look_back
  look_back-view c none r h = refl
  look_back-view c (some found) r h =
      ap (λ l. (record (log_of r) { ledger = l }, r.session_today_authoritative))
        (ap
            (λ b.
              (apply_fallback r.authoritative_healthy (is_live_at r.app_server_activity c.instant) b
                c.local found.0 found.1 (r.coordinator, r.ledger)).1)
            h
          ∙ apply_fallback-ledger r.authoritative_healthy
              (is_live_at r.app_server_activity c.instant) c found.0 found.1 r)

  fallback_step-view :
      (c : Clocks) (found : Option (Option FallbackSnapshot × Option FallbackSnapshot))
      (r : Runtime P)
      → r.session_today_authoritative ≡ true
      → view (fallback_step c found r).0 ≡ view r
  unfolding fallback_step
  fallback_step-view c found r h =
      elim (Bool-cases (leb (fallback_poll_interval r.settings) (c.instant - r.last_fallback))) [
        | inl e ↦ rw e (look_back-view c found (record r { last_fallback = c.instant }) h)
        | inr e ↦ rw e refl
      ]

  -- A state whose logs are in charge, seen as a state of the logs.
  abbrev InCharge : Runtime P → LogState → Type 0
  InCharge r b = view r ≡ (b, true)

  show_events-view :
      (c : Clocks) (batch : SessionTokenBatch) (es : List SessionTokenEvent) (r : Runtime P)
      → (view (show_events c batch es r).0 ≡ view r)
        × ((show_events c batch es r).1.1 ≡ not (has_events es))
  unfolding show_events show_event
  show_events-view c batch [] r = (refl, refl)
  show_events-view c batch (e ∷ es) r = (refl, refl)

  take_batch-InCharge :
      (c : Clocks) (batch : Option SessionTokenBatch) (r : Runtime P)
      → r.session_today_authoritative ≡ true
      → InCharge (take_batch c batch r).0 (record (log_of r) {
        ledger = operate_all r.ledger (batch_operations c.local.day_key batch);
      })
        × ((take_batch c batch r).1.1 ≡ is_empty batch)
  unfolding take_batch batch_operations operate_all
  take_batch-InCharge c none r h = (ap (λ b. (log_of r, b)) h, refl)
  take_batch-InCharge c (some batch) r h =
      let first = batch.bootstrap && has_events batch.events in
      let shown = show_events-view c batch batch.events (record r {
        ledger = book c.local.day_key batch r.ledger;
        session_today_authoritative = first || r.session_today_authoritative;
      }) in
      (
        shown.0
            ∙ ap (λ b. (record (log_of r) { ledger = book c.local.day_key batch r.ledger }, b))
                (or_right first r.session_today_authoritative h)
            ∙ ap (λ l. (record (log_of r) { ledger = l }, true))
                (book-log c.local.day_key batch r.ledger),
        shown.1,
      )

module _ {V P : Type 0} where
  session_step-InCharge :
      (x : Round V P) (r : Runtime P)
      → r.session_today_authoritative ≡ true
      → InCharge (session_step x.at_session x.batch r).0 (listened x (log_of r)).0
        × ((session_step x.at_session x.batch r).1.1 ≡ is_skipped x (log_of r))
  unfolding session_step listened is_skipped is_polled
  session_step-InCharge x r h =
      elim (Bool-cases
        (leb session_token_poll_interval (x.at_session.instant - r.last_session_token_poll))) [
          | inl e ↦ rw e (
              take_batch-InCharge x.at_session x.batch
                (record r { last_session_token_poll = x.at_session.instant }) h)
          | inr e ↦ rw e (ap (λ b. (log_of r, b)) h, refl)
        ]

  flush_step-InCharge :
      (x : Round V P) (r : Runtime P)
      → r.session_today_authoritative ≡ true
      → InCharge (flush_step x.at_flush x.saved r) (flushed x (log_of r)).0
  unfolding flush_step flushed is_flushed
  flush_step-InCharge x r h =
      elim (Bool-cases (
        r.ledger.dirty
        && leb local_ledger_flush_interval (x.at_flush.instant - r.last_ledger_flush))) [
          | inl e ↦ rw e (
              ap
                (λ b. (
                  record (log_of r) {
                    ledger = flush x.saved r.ledger;
                    last_flush = x.at_flush.instant;
                  },
                  b,
                ))
                h
              ∙ ap (λ l. (record (log_of r) { ledger = l; last_flush = x.at_flush.instant }, true))
                  (flush-log x.saved r.ledger))
          | inr e ↦ rw e (ap (λ b. (log_of r, b)) h)
        ]

  reload_step-InCharge :
      (x : Round V P) (r : Runtime P)
      → r.session_today_authoritative ≡ true
      → InCharge (reload_step x.loaded r).0 (reloaded x (log_of r)).0
  unfolding reload_step reloaded reload_operations operate_all operate
  reload_step-InCharge x r h =
      elim x.loaded
        as (λ o.
          InCharge (reload_step o r).0
            (record (log_of r) { ledger = operate_all r.ledger (reload_operations o) })) [
              | none ↦ ap (λ b. (log_of r, b)) h
              | some next ↦
                  ap
                    (λ b. (
                      record (log_of r) {
                        ledger = operate r.ledger (retains next.history_retention_days);
                      },
                      b,
                    ))
                    h
            ]

  act-InCharge :
      (x : Round V P) (r : Runtime P) (b : LogState)
      → InCharge r b
      → InCharge
          (record r {
            ledger = (process_settings_actions x.connected x.saved x.actions r.ledger).0;
          })
          (acted x b).0
  unfolding acted
  act-InCharge x r b h =
      ap (λ l. (record (log_of r) { ledger = l }, r.session_today_authoritative))
        (process_settings_actions-log x.connected x.saved x.actions r.ledger)
      ∙ ap
          (λ v. (
            record v.0 {
              ledger = operate_all v.0.ledger (action_operations x.saved x.actions v.0.ledger);
            },
            v.1,
          ))
          h

  finish_round-InCharge :
      (x : Round V P) (r : Runtime P) (b : LogState)
      → InCharge r b
      → InCharge (finish_round x r).runtime (finished x b).0
  unfolding finish_round finished
  finish_round-InCharge x r b h =
      let re = (reload_step x.loaded r).0 in
      let start = reload_step-InCharge x r (ap (λ v. v.1) h) in
      let fl = flush_step-InCharge x re (ap (λ v. v.1) start) in
      let last = act-InCharge x (flush_step x.at_flush x.saved re) (flushed x (log_of re)).0 fl in
      last
      ∙ ap (λ v. ((acted x (flushed x v.0).0).0, true)) start
      ∙ ap (λ v. ((acted x (flushed x (reloaded x v.0).0).0).0, true)) h

  after_session-InCharge :
      (x : Round V P) (calls : List (HostCall P)) (r : Runtime P) (b : LogState) (skipped : Bool)
      → InCharge r b
      → InCharge (after_session x calls r skipped).runtime (if skipped then b else (finished x b).0)
        × ((after_session x calls r skipped).goes_on
            ≡ (skipped || not (x.update_shutdown || x.exit_requested)))
  unfolding after_session finish_round
  after_session-InCharge x calls r b true h = (h, refl)
  after_session-InCharge x calls r b false h = (finish_round-InCharge x r b h, refl)

  round-InCharge :
      (x : Round V P) (r : Runtime P)
      → r.session_today_authoritative ≡ true
      → InCharge (round x r).runtime (logged x (log_of r)).0
        × ((round x r).goes_on ≡ keeps_on x (log_of r))
  unfolding round logged keeps_on
  round-InCharge x r h =
      let received = receive_update x.at_update x.update r in
      let looked = fallback_step x.at_fallback x.found received.0 in
      let polled = session_step x.at_session x.batch looked.0 in
      let kept = receive_update-view x.at_update x.update r in
      let in_charge = ap (λ v. v.1) kept ∙ h in
      let same = fallback_step-view x.at_fallback x.found received.0 in_charge ∙ kept in
      let heard = session_step-InCharge x looked.0 (ap (λ v. v.1) same ∙ h) in
      let last =
        after_session-InCharge x (received.1 ++ (looked.1 ++ polled.1.0)) polled.0
          (listened x (log_of looked.0)).0 polled.1.1 heard.0 in
      (
        last.0
            ∙ ap
                (λ k. (
                  if k
                      then (listened x (log_of looked.0)).0
                      else (finished x (listened x (log_of looked.0)).0).0,
                  true,
                ))
                heard.1
            ∙ ap (λ v. ((logged x v.0).0, true)) same,
        last.1
            ∙ ap (λ k. k || not (x.update_shutdown || x.exit_requested)) heard.1
            ∙ ap (λ v. keeps_on x v.0) same,
      )

  finished-ledger :
      (x : Round V P) (b : LogState)
      → (finished x b).0.ledger ≡ operate_all b.ledger (finished x b).1
  unfolding finished reloaded flushed acted operate_all
  finished-ledger x b =
      let re = reload_operations x.loaded in
      let l = operate_all b.ledger re in
      elim (Bool-cases (is_flushed x (record b { ledger = l }))) [
        | inl e ↦ rw e (
            let fl = flush_operations x.saved l in
            let a = action_operations x.saved x.actions (operate_all l fl) in
            sym (operate_all-append b.ledger re (fl ++ a) ∙ operate_all-append l fl a))
        | inr e ↦
            rw e (sym (operate_all-append b.ledger re (action_operations x.saved x.actions l)))
      ]

  listened-ledger :
      (x : Round V P) (b : LogState)
      → (listened x b).0.ledger ≡ operate_all b.ledger (listened x b).1
  unfolding listened operate_all
  listened-ledger x b = elim (Bool-cases (is_polled x b)) [ inl e ↦ rw e refl | inr e ↦ rw e refl ]

  logged-ledger :
      (x : Round V P) (b : LogState) → (logged x b).0.ledger ≡ operate_all b.ledger (logged x b).1
  unfolding logged
  logged-ledger x b = elim (Bool-cases (is_skipped x b)) [
    | inl e ↦ rw e (listened-ledger x b)
    | inr e ↦
        let heard = listened x b in
        rw e (
          finished-ledger x heard.0
          ∙ ap (λ l. operate_all l (finished x heard.0).1) (listened-ledger x b)
          ∙ sym (operate_all-append b.ledger heard.1 (finished x heard.0).1))
  ]

  rounds-log :
      (xs : List (Round V P)) (r : Runtime P)
      → r.session_today_authoritative ≡ true
      → (run_rounds xs r).ledger ≡ operate_all r.ledger (log_operations xs (log_of r))
  unfolding run_rounds log_operations operate_all
  rounds-log [] r h = refl
  rounds-log (x ∷ xs) r h =
      let step = round-InCharge x r h in
      let b = log_of r in
      let os = (logged x b).1 in
      let after = ap (λ v. v.0.ledger) step.0 ∙ logged-ledger x b in
      elim (Bool-cases (keeps_on x b)) [
        | inl e ↦
            rw (step.1, e)
              (rounds-log xs (round x r).runtime (ap (λ v. v.1) step.0)
                ∙ ap (λ v. operate_all v.0.ledger (log_operations xs v.0)) step.0
                ∙ ap (λ l. operate_all l (log_operations xs (logged x b).0)) (logged-ledger x b)
                ∙ sym (operate_all-append r.ledger os (log_operations xs (logged x b).0)))
        | inr e ↦ rw (step.1, e) (after ∙ sym (operate_all-append r.ledger os []))
      ]

-- Once the session logs are in charge of the day, the ledger after any rounds is the one before
-- them after a list of operations that the two databases have no part in: the events of each batch
-- that is polled, each recorded once, or the day replaced by those of a batch that begins it; the
-- retention of each reload; what the user clears; and the savings.
pub run_rounds-session_only :
    {V P : Type 0}
    → (xs : List (Round V P)) (r : Runtime P) → r.session_today_authoritative ≡ true
    → (run_rounds xs r).ledger ≡ operate_all r.ledger (log_operations xs (log_of r))
run_rounds-session_only xs r h = rounds-log xs r h
