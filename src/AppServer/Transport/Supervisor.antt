-- ===== src/AppServer/Transport/Supervisor.antt =====
-- crates/adapters-codex-app-server/src/transport.rs: the supervisor, in the steps that the system
-- takes. A step that is not the next one of the supervisor changes nothing.
use codex_quota_glance.Prelude.{
  ℕ, ◌==◌, if◌then◌else◌, List, [], ◌∷◌, ◌++◌, Option, none, some, Bool, true,
}
use codex_quota_glance.Prelude.Results.{Result, ok, err}
use codex_quota_glance.AppServer.Codec.{TransportError, closed, timeout, invalid_message}
use codex_quota_glance.AppServer.Transport.Channels.{
  protocol_error, startup_failed, ready_event, Shared, Answer, emit, answer, terminate, emit_closed,
  insert_pending, fail_pending,
}
use codex_quota_glance.AppServer.Transport.System.{
  System, Command, request_command, close_command, Phase, starting, handshaking, serving, finished,
  received, admitted, initialize_id, queued_ids,
}

module _ {V : Type 0} where
  -- The supervisor returns, and its queue is dropped.
  unfoldable pub leave : Shared V → System V → System V
  leave sh s = record s {
    shared = sh;
    phase = finished;
    queue = [];
    dropped = queued_ids s.queue ++ s.dropped;
  }

  -- `drain_commands`: every request in the queue is answered, close commands are dropped.
  unfoldable pub drain_commands : TransportError → List Command → Shared V → Shared V
  drain_commands e [] sh = sh
  drain_commands e (request_command id enc ∷ cs) sh = drain_commands e cs (answer id (err e) sh)
  drain_commands e (close_command ∷ cs) sh = drain_commands e cs sh

  unfoldable pub leave_drained : Shared V → System V → System V
  leave_drained sh s = record s {
    shared = drain_commands closed s.queue sh;
    phase = finished;
    queue = [];
  }

  -- A failed start: the handshake is failed, the event is sent, the transport ends.
  unfoldable pub fail_start : TransportError → Shared V → Shared V
  fail_start e sh = (terminate e (emit (startup_failed e) (fail_pending initialize_id e sh))).0

  unfoldable pub send_initialize : Result TransportError (List ℕ) → Shared V → System V → System V
  send_initialize (err e) sh s = leave (fail_start e sh) s
  send_initialize (ok bytes) sh s =
      if s.writing
      then record s { shared = sh; phase = handshaking; outbound = bytes ∷ s.outbound }
      else leave (fail_start closed sh) s

  unfoldable pub register :
      Result TransportError (List ℕ)
      → Shared V × Result TransportError (Unit {0})
      → System V
      → System V
  register enc (sh, err e) s =
      leave (terminate closed (emit (startup_failed (invalid_message "initialize id 冲突")) sh)).0
        (record s { dropped = initialize_id ∷ s.dropped })
  register enc (sh, ok _) s = send_initialize enc (record sh { handshake_registered = true }) s

  -- The head of `supervisor_loop`.
  unfoldable pub start_supervisor : ℕ → Result TransportError (List ℕ) → Phase → System V → System V
  start_supervisor deadline enc starting s =
      register enc (insert_pending initialize_id deadline s.shared) s
  start_supervisor deadline enc _ s = s

  unfoldable pub find_answer : ℕ → List (ℕ × Answer V) → Option (Answer V)
  find_answer id [] = none
  find_answer id (a ∷ as') = if a.0 == id then some a.1 else find_answer id as'

  -- `initialized` is sent, and the transport is ready.
  unfoldable pub send_initialized : Result TransportError (List ℕ) → System V → System V
  send_initialized (err e) s = leave_drained (terminate e (emit (startup_failed e) s.shared)).0 s
  send_initialized (ok bytes) s =
      if s.writing
      then record s {
        shared = emit ready_event (record s.shared { ready = true });
        phase = serving;
        outbound = bytes ∷ s.outbound;
      }
      else leave_drained (terminate closed (emit (startup_failed closed) s.shared)).0 s

  unfoldable pub handshake_result :
      Bool → Result TransportError (List ℕ) → Option (Answer V) → System V → System V
  handshake_result timed_out enc none s =
      if timed_out then leave_drained (fail_start (timeout initialize_id) s.shared) s else s
  handshake_result timed_out enc (some (err e)) s = leave_drained (fail_start e s.shared) s
  handshake_result timed_out enc (some (ok r)) s = send_initialized enc s

  unfoldable pub end_handshake : Bool → Result TransportError (List ℕ) → Phase → System V → System V
  end_handshake timed_out enc handshaking s =
      handshake_result timed_out enc (find_answer initialize_id s.shared.answers) s
  end_handshake timed_out enc _ s = s

  unfoldable pub next_command : List Command → System V → System V
  next_command [] s = s
  next_command (close_command ∷ cs) s =
      leave (emit_closed (terminate closed s.shared).0) (record s { queue = cs })
  next_command (request_command id enc ∷ cs) s = record s { queue = cs; phase = received id enc }

  -- The head of the loop of `supervisor_loop`, and `recv_timeout`.
  unfoldable pub receive : Phase → System V → System V
  receive serving s = if s.shared.alive then next_command s.queue s else leave_drained s.shared s
  receive _ s = s

  -- Every sender of commands is gone, and the queue is empty.
  unfoldable pub disconnected : List Command → System V → System V
  disconnected [] s = leave (emit_closed (terminate closed s.shared).0) s
  disconnected (c ∷ cs) s = s

  unfoldable pub receive_disconnect : Phase → System V → System V
  receive_disconnect serving s = if s.shared.alive then disconnected s.queue s else s
  receive_disconnect _ s = s

  unfoldable pub check : Phase → System V → System V
  check (received id enc) s =
      if s.shared.alive
      then record s { phase = admitted id enc }
      else record s { shared = answer id (err closed) s.shared; phase = serving }
  check _ s = s

  unfoldable pub send_bytes : ℕ → Result TransportError (List ℕ) → Shared V → System V → System V
  send_bytes id (ok bytes) sh s =
      if s.writing
      then record s { shared = sh; phase = serving; outbound = bytes ∷ s.outbound }
      else leave (terminate closed (fail_pending id closed sh)).0 s
  send_bytes id (err e) sh s = record s {
    shared = emit (protocol_error e) (fail_pending id e sh);
    phase = serving;
  }

  unfoldable pub admit_registered :
      ℕ
      → Result TransportError (List ℕ)
      → Shared V × Result TransportError (Unit {0})
      → System V
      → System V
  admit_registered id enc (sh, err e) s = record s {
    shared = emit (protocol_error e) sh;
    phase = serving;
    dropped = id ∷ s.dropped;
  }
  admit_registered id enc (sh, ok _) s = send_bytes id enc sh s

  unfoldable pub admit_request : ℕ → Phase → System V → System V
  admit_request deadline (admitted id enc) s =
      admit_registered id enc (insert_pending id deadline s.shared) s
  admit_request deadline _ s = s
