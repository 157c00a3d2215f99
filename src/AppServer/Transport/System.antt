-- ===== src/AppServer/Transport/System.antt =====
-- crates/adapters-codex-app-server/src/transport.rs: the state of the transport, its threads
-- included, and what a caller does to it.
use codex_quota_glance.Prelude.{
  ℕ, ◌+◌, ◌==◌, if◌then◌else◌, List, [], ◌∷◌, ◌++◌, Option, Bool, true, false, ◌&&◌, not,
}
use codex_quota_glance.Prelude.Words.{u64_max}
use codex_quota_glance.Prelude.Results.{Result, ok, err}
use codex_quota_glance.AppServer.Codec.{TransportError, closed, id_exhausted}
use codex_quota_glance.AppServer.Transport.Channels.{Shared, terminate, emit_closed}

pub data Command : Type 0 where
  request_command : (id : ℕ) → Result TransportError (List ℕ) → Command
  close_command : Command

-- Where the supervisor is. It has received a request, has seen that the transport is alive, …
pub data Phase : Type 0 where
  starting handshaking serving finished : Phase
  received admitted : (id : ℕ) → Result TransportError (List ℕ) → Phase

-- Where the loop of timeouts is.
pub data Timer : Type 0 where
  looking sleeping stopped : Timer

-- `dropped` are the ids whose channel was closed without an answer: the caller reads `Closed`.
pub record System (V : Type 0) : Type 0 where
  pub shared : Shared V
  pub queue : List Command
  pub next_id : ℕ
  pub phase : Phase
  pub dropped : List ℕ
  pub reading : Bool
  pub writing : Bool
  pub outbound : List (List ℕ)
  pub timer : Timer

pub data Action : Type 0 where
  request : Result TransportError (List ℕ) → Action
  close : Action
  start : (deadline : ℕ) → Result TransportError (List ℕ) → Action
  finish_handshake : (timed_out : Bool) → Result TransportError (List ℕ) → Action
  take_command check_alive disconnect : Action
  admit : (deadline : ℕ) → Action
  read : Result TransportError (Option (List ℕ)) → Action
  fail_write : TransportError → Action
  look : Action
  tick : (now : ℕ) → Action

abbrev pub initialize_id : ℕ
initialize_id = 1

unfoldable pub is_finished : Phase → Bool
is_finished finished = true
is_finished _ = false

unfoldable pub queued_ids : List Command → List ℕ
queued_ids [] = []
queued_ids (request_command id enc ∷ cs) = id ∷ queued_ids cs
queued_ids (close_command ∷ cs) = queued_ids cs

module _ {V : Type 0} where
  abbrev pub started : System V
  started = record {
    shared = record {
      alive = true;
      ready = false;
      handshake_registered = false;
      closed_event_sent = false;
      pending = [];
      answers = [];
      events = [];
    };
    queue = [];
    next_id = 2;
    phase = starting;
    dropped = [];
    reading = true;
    writing = true;
    outbound = [];
    timer = looking;
  }

  -- `send_request_with_id` after its id was taken. A channel that no command took over is dropped.
  unfoldable pub send_request_with_id :
      ℕ → Result TransportError (List ℕ) → System V → System V × Result TransportError ℕ
  unfolding is_finished
  send_request_with_id id (err e) s = (s, err (if s.shared.alive then e else closed))
  send_request_with_id id (ok bytes) s =
      if s.shared.alive && not (is_finished s.phase)
      then (record s { queue = s.queue ++ (request_command id (ok bytes) ∷ []) }, ok id)
      else (s, err closed)

  -- `send_request` and `next_request_id`.
  unfoldable pub send_request :
      Result TransportError (List ℕ) → System V → System V × Result TransportError ℕ
  unfolding send_request_with_id
  send_request enc s =
      if s.next_id == u64_max
      then (s, err id_exhausted)
      else send_request_with_id s.next_id enc (record s { next_id = s.next_id + 1 })

  unfoldable pub close_transport : System V → System V × Result TransportError (Unit {0})
  unfolding is_finished emit_closed terminate
  close_transport s =
      if s.shared.alive
      then (if is_finished s.phase
          then (record s { shared = emit_closed (terminate closed s.shared).0 }, err closed)
          else (
            record s { queue = s.queue ++ (close_command ∷ []); shared = emit_closed s.shared },
            ok tt,
          ))
      else (s, ok tt)
