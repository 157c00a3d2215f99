-- ===== src/AppServer/Transport/Supervised.antt =====
-- The supervisor keeps the number of requests with an id.
use codex_quota_glance.Prelude.{
  ℕ, ◌+◌, ◌≡◌, refl, List, [], ◌∷◌, Option, none, some, Bool, true, arith,
}
use codex_quota_glance.Prelude.Results.{Result, ok, err}
use codex_quota_glance.AppServer.Codec.{TransportError, closed, timeout}
use codex_quota_glance.AppServer.Transport.Channels.{
  startup_failed, protocol_error, Shared, Answer, emit, terminate, emit_closed, insert_pending,
  fail_pending,
}
use codex_quota_glance.AppServer.Transport.System.{
  System, Command, request_command, close_command, Phase, starting, handshaking, serving, received,
  admitted, initialize_id, queued_ids,
}
use codex_quota_glance.AppServer.Transport.Supervisor.{
  fail_start, send_initialize, register, start_supervisor, send_initialized, handshake_result,
  end_handshake, next_command, receive, disconnected, receive_disconnect, check, send_bytes,
  admit_registered, admit_request,
}
use codex_quota_glance.AppServer.Transport.Totals.{
  phase_ids, total, leave-total, leave_drained-total, fail_start-count,
}
use codex_quota_glance.AppServer.Transport.Conservation.{
  one, count_keys, count, shared_count, emit-count, terminate-count, emit_closed-count,
  answer-count, fail_pending-count,
}

-- What `insert_pending` refuses.
abbrev refused : ℕ → ℕ → Result TransportError (Unit {0}) → ℕ
refused x id (ok _) = 0
refused x id (err _) = one x id

module _ (x : ℕ) {V : Type 0} where
  -- What stands outside the supervisor's hand, if `sh` is what the threads share.
  abbrev around : Shared V → System V → ℕ
  around sh s = shared_count x sh + count x (queued_ids s.queue) + count x s.dropped

  send_initialize-total :
      (enc : Result TransportError (List ℕ)) (sh : Shared V) (s : System V)
      → total x (send_initialize enc sh s) ≡ around sh s
  unfolding send_initialize total phase_ids count
  send_initialize-total (err e) sh s =
      ground (arith, leave-total x (fail_start e sh) s, fail_start-count x e sh)
  send_initialize-total (ok bytes) sh s =
      ground (arith, leave-total x (fail_start closed sh) s, fail_start-count x closed sh)

  register-total :
      (enc : Result TransportError (List ℕ)) (sh : Shared V) (r : Result TransportError (Unit {0}))
      (s : System V)
      → total x (register enc (sh, r) s) ≡ refused x initialize_id r + around sh s
  unfolding register count
  register-total enc sh (err e) s = omega (
    arith,
    leave-total x _ (record s { dropped = initialize_id ∷ s.dropped }),
    terminate-count x closed,
    emit-count x _ sh,
  )
  register-total enc sh (ok _) s =
      unfold shared_count in
      omega (arith, send_initialize-total enc (record sh { handshake_registered = true }) s)

  insert_refused :
      (id deadline : ℕ) (sh : Shared V)
      → refused x id (insert_pending id deadline sh).1
          + shared_count x (insert_pending id deadline sh).0
        ≡ one x id + shared_count x sh
  unfolding insert_pending shared_count count_keys
  insert_refused id deadline sh = ground arith

  pub start-total :
      (deadline : ℕ) (enc : Result TransportError (List ℕ)) (p : Phase) (s : System V)
      → s.phase ≡ p
      → total x (start_supervisor deadline enc p s) ≡ total x s
  unfolding start_supervisor
  start-total deadline enc starting s h =
      let (sh, r) = insert_pending initialize_id deadline s.shared in
      let registered = register-total enc sh r s in
      let inserted' = insert_refused initialize_id deadline s.shared in
      unfold total phase_ids count in ground (arith, registered, inserted')
  start-total deadline enc _ s h = refl

  send_initialized-total :
      (enc : Result TransportError (List ℕ)) (s : System V)
      → total x (send_initialized enc s) ≡ around s.shared s
  unfolding send_initialized total phase_ids count emit shared_count
  send_initialized-total (err e) s = ground (
    arith,
    leave_drained-total x (terminate e (emit (startup_failed e) s.shared)).0 s,
    terminate-count x e (emit (startup_failed e) s.shared),
  )
  send_initialized-total (ok bytes) s = ground (
    arith,
    leave_drained-total x (terminate closed (emit (startup_failed closed) s.shared)).0 s,
    terminate-count x closed (emit (startup_failed closed) s.shared),
  )

  handshake_result-total :
      (timed_out : Bool) (enc : Result TransportError (List ℕ)) (a : Option (Answer V))
      (s : System V)
      → s.phase ≡ handshaking
      → total x (handshake_result timed_out enc a s) ≡ total x s
  unfolding handshake_result total phase_ids count
  handshake_result-total timed_out enc none s h = ground (
    arith,
    leave_drained-total x (fail_start (timeout initialize_id) s.shared) s,
    fail_start-count x (timeout initialize_id) s.shared,
  )
  handshake_result-total timed_out enc (some (err e)) s h =
      ground (arith, leave_drained-total x (fail_start e s.shared) s, fail_start-count x e s.shared)
  handshake_result-total timed_out enc (some (ok r)) s h =
      ground (arith, send_initialized-total enc s)

  pub end_handshake-total :
      (timed_out : Bool) (enc : Result TransportError (List ℕ)) (p : Phase) (s : System V)
      → s.phase ≡ p
      → total x (end_handshake timed_out enc p s) ≡ total x s
  unfolding end_handshake
  end_handshake-total timed_out enc handshaking s h = handshake_result-total timed_out enc _ s h
  end_handshake-total timed_out enc _ s h = refl

  next_command-total :
      (cs : List Command) (s : System V)
      → s.phase ≡ serving
      → s.queue ≡ cs
      → total x (next_command cs s) ≡ total x s
  unfolding next_command total phase_ids queued_ids count
  next_command-total [] s h q = refl
  next_command-total (close_command ∷ cs) s h q = ground (
    arith,
    leave-total x (emit_closed (terminate closed s.shared).0) (record s { queue = cs }),
    emit_closed-count x (terminate closed s.shared).0,
    terminate-count x closed s.shared,
  )
  next_command-total (request_command id enc ∷ cs) s h q = ground arith

  pub receive-total : (p : Phase) (s : System V) → s.phase ≡ p → total x (receive p s) ≡ total x s
  unfolding receive total phase_ids count
  receive-total serving s h =
      ground (arith, next_command-total s.queue s h refl, leave_drained-total x s.shared s)
  receive-total _ s h = refl

  disconnected-total :
      (cs : List Command) (s : System V)
      → s.phase ≡ serving
      → total x (disconnected cs s) ≡ total x s
  unfolding disconnected total phase_ids count
  disconnected-total [] s h = ground (
    arith,
    leave-total x (emit_closed (terminate closed s.shared).0) s,
    emit_closed-count x (terminate closed s.shared).0,
    terminate-count x closed s.shared,
  )
  disconnected-total (c ∷ cs) s h = refl

  pub receive_disconnect-total :
      (p : Phase) (s : System V) → s.phase ≡ p → total x (receive_disconnect p s) ≡ total x s
  unfolding receive_disconnect
  receive_disconnect-total serving s h = ground (arith, disconnected-total s.queue s)
  receive_disconnect-total _ s h = refl

  pub check-total : (p : Phase) (s : System V) → s.phase ≡ p → total x (check p s) ≡ total x s
  unfolding check total phase_ids count
  check-total (received id enc) s h = ground (arith, answer-count x id (err closed) s.shared)
  check-total _ s h = refl

  send_bytes-total :
      (id : ℕ) (enc : Result TransportError (List ℕ)) (sh : Shared V) (s : System V)
      → total x (send_bytes id enc sh s) ≡ around sh s
  unfolding send_bytes total phase_ids count
  send_bytes-total id (ok bytes) sh s = ground (
    arith,
    leave-total x (terminate closed (fail_pending id closed sh)).0 s,
    terminate-count x closed (fail_pending id closed sh),
    fail_pending-count x id closed sh,
  )
  send_bytes-total id (err e) sh s =
      ground (
        arith,
        emit-count x (protocol_error e) (fail_pending id e sh),
        fail_pending-count x id e sh,
      )

  admit_registered-total :
      (id : ℕ) (enc : Result TransportError (List ℕ)) (sh : Shared V)
      (r : Result TransportError (Unit {0})) (s : System V)
      → total x (admit_registered id enc (sh, r) s) ≡ refused x id r + around sh s
  unfolding admit_registered total phase_ids count
  admit_registered-total id enc sh (err e) s = ground (arith, emit-count x (protocol_error e) sh)
  admit_registered-total id enc sh (ok _) s = ground (arith, send_bytes-total id enc sh s)

  pub admit_request-total :
      (deadline : ℕ) (p : Phase) (s : System V)
      → s.phase ≡ p
      → total x (admit_request deadline p s) ≡ total x s
  unfolding admit_request
  admit_request-total deadline (admitted id enc) s h =
      let (sh, r) = insert_pending id deadline s.shared in
      let registered = admit_registered-total id enc sh r s in
      let inserted' = insert_refused id deadline s.shared in
      unfold total phase_ids count in ground (arith, registered, inserted')
  admit_request-total deadline _ s h = refl
