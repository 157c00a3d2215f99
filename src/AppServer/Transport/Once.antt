-- ===== src/AppServer/Transport/Once.antt =====
-- A request is answered once at most.
use codex_quota_glance.Prelude.{
  ℕ, inl, inr, Bool-cases, ◌+◌, ◌≤◌, ◌≡◌, refl, ltb, if◌then◌else◌, List, [], ◌∷◌, Option, Bool,
  false, arith,
}
use codex_quota_glance.Prelude.Results.{Result, ok, err}
use codex_quota_glance.AppServer.Json.{Json}
use codex_quota_glance.AppServer.Codec.{TransportError}
use codex_quota_glance.AppServer.Codec.Decode.{DecodedFrame}
use codex_quota_glance.AppServer.Transport.Channels.{io_error, contains_key, insert_pending}
use codex_quota_glance.AppServer.Transport.System.{
  System, Phase, admitted, Action, request, close, start, finish_handshake, take_command,
  check_alive, disconnect, admit, read, fail_write, look, tick, Timer, queued_ids,
  send_request_with_id, send_request, close_transport, started,
}
use codex_quota_glance.AppServer.Transport.Supervisor.{
  leave, leave_drained, send_initialize, register, start_supervisor, send_initialized,
  handshake_result, end_handshake, next_command, receive, disconnected, receive_disconnect, check,
  send_bytes, admit_registered, admit_request,
}
use codex_quota_glance.AppServer.Transport.Threads.{
  fail_writer, look_timeouts, tick_timeouts, read_round, step, run,
}
use codex_quota_glance.AppServer.Transport.Conservation.{
  count, count_keys, shared_count, present-count, expire-count, end_with-count, reader_round-count,
}
use codex_quota_glance.AppServer.Transport.Totals.{
  phase_ids, total, send_request_with_id-total, close_transport-total,
}
use codex_quota_glance.AppServer.Transport.Supervised.{
  start-total, end_handshake-total, receive-total, receive_disconnect-total, check-total,
  admit_request-total,
}

module _ {V : Type 0} where
  start-next_id :
      (deadline : ℕ) (enc : Result TransportError (List ℕ)) (p : Phase) (s : System V)
      → (start_supervisor deadline enc p s).next_id ≡ s.next_id
  unfolding start_supervisor register insert_pending send_initialize leave
  start-next_id deadline enc p s = ground arith

  end_handshake-next_id :
      (timed_out : Bool) (enc : Result TransportError (List ℕ)) (p : Phase) (s : System V)
      → (end_handshake timed_out enc p s).next_id ≡ s.next_id
  unfolding end_handshake handshake_result send_initialized leave_drained
  end_handshake-next_id timed_out enc p s = ground arith

  receive-next_id : (p : Phase) (s : System V) → (receive p s).next_id ≡ s.next_id
  unfolding receive next_command leave leave_drained
  receive-next_id p s = ground arith

  receive_disconnect-next_id :
      (p : Phase) (s : System V) → (receive_disconnect p s).next_id ≡ s.next_id
  unfolding receive_disconnect disconnected leave
  receive_disconnect-next_id p s = ground arith

  check-next_id : (p : Phase) (s : System V) → (check p s).next_id ≡ s.next_id
  unfolding check
  check-next_id p s = ground arith

  admit-next_id :
      (deadline : ℕ) (p : Phase) (s : System V) → (admit_request deadline p s).next_id ≡ s.next_id
  unfolding admit_request admit_registered insert_pending send_bytes leave
  admit-next_id deadline p s = ground arith

  close-next_id : (s : System V) → (close_transport s).0.next_id ≡ s.next_id
  unfolding close_transport
  close-next_id s = ground arith

  send_request_with_id-next_id :
      (id : ℕ) (enc : Result TransportError (List ℕ)) (s : System V)
      → (send_request_with_id id enc s).0.next_id ≡ s.next_id
  unfolding send_request_with_id
  send_request_with_id-next_id id (err e) s = refl
  send_request_with_id-next_id id (ok bytes) s = ground arith

  -- The id `x` was not given yet, or stands in one place.
  Once : ℕ → System V → Type 0
  Once x s = total x s ≤ (if ltb x s.next_id then 1 else 0)

  Once-same :
      (x : ℕ) (s t : System V) → total x t ≡ total x s → t.next_id ≡ s.next_id → Once x s → Once x t
  unfolding Once
  Once-same x s t e n h = rw (e, n) h

  send_request-Once :
      (x : ℕ) (enc : Result TransportError (List ℕ)) (s : System V)
      → Once x s
      → Once x (send_request enc s).0
  unfolding Once send_request total
  send_request-Once x enc s h =
      let s' = record s { next_id = s.next_id + 1 } in
      ground (
        arith,
        send_request_with_id-total x s.next_id enc s',
        send_request_with_id-next_id s.next_id enc s',
      )

  look-total : (x : ℕ) (t : Timer) (s : System V) → total x (look_timeouts t s) ≡ total x s
  unfolding look_timeouts total
  look-total x t s = ground arith

  look-next_id : (t : Timer) (s : System V) → (look_timeouts t s).next_id ≡ s.next_id
  unfolding look_timeouts
  look-next_id t s = ground arith

  tick-total : (x now : ℕ) (t : Timer) (s : System V) → total x (tick_timeouts now t s) ≡ total x s
  unfolding tick_timeouts total
  tick-total x now t s = ground (arith, expire-count x now s.shared)

  tick-next_id : (now : ℕ) (t : Timer) (s : System V) → (tick_timeouts now t s).next_id ≡ s.next_id
  unfolding tick_timeouts
  tick-next_id now t s = ground arith

  fail_writer-total :
      (x : ℕ) (e : TransportError) (s : System V) → total x (fail_writer e s) ≡ total x s
  unfolding fail_writer total
  fail_writer-total x e s = ground (arith, end_with-count x e (io_error e) s.shared)

  fail_writer-next_id : (e : TransportError) (s : System V) → (fail_writer e s).next_id ≡ s.next_id
  unfolding fail_writer
  fail_writer-next_id e s = ground arith

  admitted-fresh :
      (id : ℕ) (enc : Result TransportError (List ℕ)) (s : System V)
      → s.phase ≡ admitted id enc
      → total id s ≤ 1
      → contains_key id s.shared.pending ≡ false
  unfolding total phase_ids count shared_count
  admitted-fresh id enc s h t = elim (Bool-cases (contains_key id s.shared.pending)) [
    | inl found ↦ absurd (ground (arith, present-count id s.shared.pending found))
    | inr fresh ↦ fresh
  ]

module _ {V : Type 0} ⦃j : Json V⦄
    (decode : List ℕ → Result TransportError (Option (DecodedFrame V))) where
  read_round-total :
      (x : ℕ) (r : Result TransportError (Option (List ℕ))) (s : System V)
      → total x (read_round decode r s) ≡ total x s
  unfolding read_round total
  read_round-total x r s = ground (arith, reader_round-count x decode r s.shared)

  read_round-next_id :
      (r : Result TransportError (Option (List ℕ))) (s : System V)
      → (read_round decode r s).next_id ≡ s.next_id
  unfolding read_round
  read_round-next_id r s = ground arith

  step-Once : (x : ℕ) (a : Action) (s : System V) → Once x s → Once x (step decode a s)
  unfolding step
  step-Once x (request enc) s h = send_request-Once x enc s h
  step-Once x close s h =
      Once-same x s (close_transport s).0 (close_transport-total x s) (close-next_id s) h
  step-Once x (start deadline enc) s h =
      Once-same x s (start_supervisor deadline enc s.phase s)
        (start-total x deadline enc s.phase s refl) (start-next_id deadline enc s.phase s) h
  step-Once x (finish_handshake timed_out enc) s h =
      Once-same x s (end_handshake timed_out enc s.phase s)
        (end_handshake-total x timed_out enc s.phase s refl)
        (end_handshake-next_id timed_out enc s.phase s) h
  step-Once x take_command s h =
      Once-same x s (receive s.phase s) (receive-total x s.phase s refl) (receive-next_id s.phase s)
        h
  step-Once x check_alive s h =
      Once-same x s (check s.phase s) (check-total x s.phase s refl) (check-next_id s.phase s) h
  step-Once x disconnect s h =
      Once-same x s (receive_disconnect s.phase s) (receive_disconnect-total x s.phase s refl)
        (receive_disconnect-next_id s.phase s) h
  step-Once x (admit deadline) s h =
      Once-same x s (admit_request deadline s.phase s)
        (admit_request-total x deadline s.phase s refl) (admit-next_id deadline s.phase s) h
  step-Once x (read r) s h =
      Once-same x s (read_round decode r s) (read_round-total x r s) (read_round-next_id r s) h
  step-Once x (fail_write e) s h =
      Once-same x s (fail_writer e s) (fail_writer-total x e s) (fail_writer-next_id e s) h
  step-Once x look s h =
      Once-same x s (look_timeouts s.timer s) (look-total x s.timer s) (look-next_id s.timer s) h
  step-Once x (tick now) s h =
      Once-same x s (tick_timeouts now s.timer s) (tick-total x now s.timer s)
        (tick-next_id now s.timer s) h

  run-Once :
      (x : ℕ) (actions : List Action) (s : System V) → Once x s → Once x (run decode actions s)
  unfolding run
  run-Once x [] s h = h
  run-Once x (a ∷ actions) s h = run-Once x actions (step decode a s) (step-Once x a s h)

  started-Once : (x : ℕ) → Once x (started {V = V})
  unfolding Once total phase_ids queued_ids count count_keys shared_count
  started-Once x = ground arith

  -- Whatever the threads do, and in whatever order, a request id stands in one place at most: in
  -- the queue, in the supervisor's hand, among the pending requests, among the answers, or among
  -- the dropped ones. So a request is answered once at most, and one that waits has no answer.
  pub run_once : (x : ℕ) (actions : List Action) → total x (run decode actions started) ≤ 1
  unfolding Once
  run_once x actions = ground (arith, run-Once x actions started (started-Once x))

  -- Whatever the threads did, a request that the supervisor has in hand is not pending already, so
  -- that registering it never fails.
  run-insert_pending :
      (actions : List Action) (id deadline : ℕ) (enc : Result TransportError (List ℕ))
      → (run decode actions started).phase ≡ admitted id enc
      → (insert_pending id deadline (run decode actions started).shared).1 ≡ ok tt
  unfolding insert_pending
  run-insert_pending actions id deadline enc h =
      ground (arith, admitted-fresh id enc (run decode actions started) h (run_once id actions))
