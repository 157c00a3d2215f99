-- ===== src/Taskbar/Runtime/Sound/Steps.antt =====
-- apps/codex-taskbar/src/official_runtime.rs: the steps of a round keep to the operations of the
-- coordinator and of the ledger.
use codex_quota_glance.Prelude.{
  ℕ, refl, leb, ◌-◌, List, [], ◌∷◌, Option, none, some, Bool, ◌&&◌, ◌||◌, Bool-cases, inl, inr,
}
use codex_quota_glance.Application.Coordinator.{token_usage, local_today_usage, apply}
use codex_quota_glance.Application.Ledger.Books.{today_counts}
use codex_quota_glance.Application.Ledger.Invariant.{retains, operate}
use codex_quota_glance.Settings.Config.{AppConfig}
use codex_quota_glance.Taskbar.Sessions.Events.{SessionTokenEvent}
use codex_quota_glance.Taskbar.Sessions.Tailer.{SessionTokenBatch}
use codex_quota_glance.Taskbar.Runtime.Fallback.{
  FallbackSnapshot, apply_state_snapshot, apply_history, apply_fallback, Books,
}
use codex_quota_glance.Taskbar.Runtime.Lease.{is_live_at}
use codex_quota_glance.Taskbar.Runtime.Steps.{
  Runtime, Clocks, look_back, fallback_step, fallback_poll_interval, has_events, last_of, book,
  session_usage, show_event, show_events, take_batch, session_step, session_token_poll_interval,
  reload_step, flush_step, local_ledger_flush_interval,
}
use codex_quota_glance.Taskbar.Runtime.Booking.{
  or_right, flush-Booked, book-Booked, apply_state_snapshot-Ran, apply_state_snapshot-Booked,
  apply_history-Ran,
}
use codex_quota_glance.Taskbar.Runtime.Relation.{
  Sound, nothing-Booked, one_calm, nothing-Ran, one-Ran, Ran-trans, Sound-refl, Sound-trans,
}

module _ {P : Type 0} where
  last_fallback_free :
      (r : Runtime P) (n : ℕ) (t : Runtime P) → Sound (record r { last_fallback = n }) t → Sound r t
  last_fallback_free r n t h = record {
    coordinated = h.coordinated;
    booked = h.booked;
    in_charge = h.in_charge;
  }

  last_session_token_poll_free :
      (r : Runtime P) (n : ℕ) (t : Runtime P)
      → Sound (record r { last_session_token_poll = n }) t
      → Sound r t
  last_session_token_poll_free r n t h = record {
    coordinated = h.coordinated;
    booked = h.booked;
    in_charge = h.in_charge;
  }

  look_back-Sound :
      (c : Clocks) (x : Option (Option FallbackSnapshot × Option FallbackSnapshot)) (r : Runtime P)
      → Sound r (look_back c x r).0
  unfolding look_back apply_fallback
  look_back-Sound c none r = Sound-refl r
  look_back-Sound c (some found) r =
      let b : Books P = (r.coordinator, r.ledger) in
      let b' =
        apply_state_snapshot r.authoritative_healthy r.session_today_authoritative c.local found.0
          b in
      let live = is_live_at r.app_server_activity c.instant in
      record {
        coordinated =
            Ran-trans r.coordinator b'.0 (apply_history live found.1 b'.0)
              (apply_state_snapshot-Ran r.authoritative_healthy r.session_today_authoritative
                c.local found.0 b)
              (apply_history-Ran live found.1 b'.0);
        booked =
            apply_state_snapshot-Booked r.authoritative_healthy r.session_today_authoritative
              c.local found.0 b;
        in_charge = λ e. e;
      }

  pub fallback_step-Sound :
      (c : Clocks) (x : Option (Option FallbackSnapshot × Option FallbackSnapshot)) (r : Runtime P)
      → Sound r (fallback_step c x r).0
  unfolding fallback_step
  fallback_step-Sound c x r =
      elim (Bool-cases (leb (fallback_poll_interval r.settings) (c.instant - r.last_fallback))) [
        | inl e ↦ rw e (
            last_fallback_free r c.instant
              (look_back c x (record r { last_fallback = c.instant })).0
              (look_back-Sound c x (record r { last_fallback = c.instant })))
        | inr e ↦ rw e (Sound-refl r)
      ]

  show_event-Sound :
      (c : Clocks) (bootstrap : Bool) (e : SessionTokenEvent) (r : Runtime P)
      → Sound r (show_event c bootstrap e r).0
  unfolding show_event
  show_event-Sound c bootstrap e r =
      let used = (apply r.coordinator (token_usage (session_usage e c.now))).0 in
      let today = local_today_usage (today_counts r.ledger c.local.day_key) c.later in
      record {
        coordinated =
            Ran-trans r.coordinator used (apply used today).0
              (one-Ran r.coordinator (token_usage (session_usage e c.now))) (one-Ran used today);
        booked = nothing-Booked r.session_today_authoritative r.ledger;
        in_charge = λ h. h;
      }

  show_events-Sound :
      (c : Clocks) (batch : SessionTokenBatch) (es : List SessionTokenEvent) (r : Runtime P)
      → Sound r (show_events c batch es r).0
  unfolding show_events
  show_events-Sound c batch [] r = record {
    coordinated = nothing-Ran r.coordinator;
    booked = nothing-Booked r.session_today_authoritative r.ledger;
    in_charge = λ h. h;
  }
  show_events-Sound c batch (e ∷ es) r = show_event-Sound c batch.bootstrap (last_of e es) r

  take_batch-Sound :
      (c : Clocks) (x : Option SessionTokenBatch) (r : Runtime P) → Sound r (take_batch c x r).0
  unfolding take_batch
  take_batch-Sound c none r = Sound-refl r
  take_batch-Sound c (some batch) r =
      let first = batch.bootstrap && has_events batch.events in
      let booked : Runtime P = record r {
        ledger = book c.local.day_key batch r.ledger;
        session_today_authoritative = first || r.session_today_authoritative;
      } in
      Sound-trans r booked (show_events c batch batch.events booked).0
        (record {
          coordinated = nothing-Ran r.coordinator;
          booked = book-Booked r.session_today_authoritative c.local.day_key batch r.ledger;
          in_charge = λ h. or_right first r.session_today_authoritative h;
        })
        (show_events-Sound c batch batch.events booked)

  pub session_step-Sound :
      (c : Clocks) (x : Option SessionTokenBatch) (r : Runtime P) → Sound r (session_step c x r).0
  unfolding session_step
  session_step-Sound c x r =
      elim (Bool-cases (leb session_token_poll_interval (c.instant - r.last_session_token_poll))) [
        | inl e ↦ rw e (
            last_session_token_poll_free r c.instant
              (take_batch c x (record r { last_session_token_poll = c.instant })).0
              (take_batch-Sound c x (record r { last_session_token_poll = c.instant })))
        | inr e ↦ rw e (Sound-refl r)
      ]

  pub reload_step-Sound : (x : Option AppConfig) (r : Runtime P) → Sound r (reload_step x r).0
  unfolding reload_step operate
  reload_step-Sound none r = Sound-refl r
  reload_step-Sound (some next) r = record {
    coordinated = nothing-Ran r.coordinator;
    booked =
        one_calm r.session_today_authoritative r.ledger (retains next.history_retention_days) refl;
    in_charge = λ h. h;
  }

  pub flush_step-Sound :
      (c : Clocks) (saved : Bool) (r : Runtime P) → Sound r (flush_step c saved r)
  unfolding flush_step
  flush_step-Sound c saved r =
      elim (Bool-cases
        (r.ledger.dirty && leb local_ledger_flush_interval (c.instant - r.last_ledger_flush))) [
          | inl e ↦ rw e (record {
            coordinated = nothing-Ran r.coordinator;
            booked = flush-Booked r.session_today_authoritative saved r.ledger;
            in_charge = λ h. h;
          })
          | inr e ↦ rw e (Sound-refl r)
        ]
