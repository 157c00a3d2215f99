-- ===== src/AppServer/Transport/Channels.antt =====
-- crates/adapters-codex-app-server/src/transport.rs: what the threads of the transport share. A
-- channel for an answer is named by the id of the request that it was made for; `answers` and
-- `events` hold what was sent on the channels, the newest first.
use codex_quota_glance.Prelude.{
  ℕ, ◌==◌, leb, if◌then◌else◌, List, [], ◌∷◌, ◌++◌, Option, none, some, Bool, true, false,
}
use codex_quota_glance.Prelude.Results.{Result, ok, err}
use codex_quota_glance.AppServer.Json.{Json}
use codex_quota_glance.AppServer.Codec.{
  TransportError, eof, io, timeout, rpc, invalid_message, missing_response_id,
}
use codex_quota_glance.AppServer.Codec.Decode.{
  JsonRpcError, JsonRpcResponse, DecodedFrame, notification, response, id_number,
}

pub data TransportEvent (V : Type 0) : Type 0 where
  notified : V → TransportEvent V
  unexpected_response : JsonRpcResponse V → TransportEvent V
  protocol_error io_error startup_failed : TransportError → TransportEvent V
  reached_eof ready_event closed_event : TransportEvent V

abbrev pub Answer : Type 0 → Type 0
Answer V = Result TransportError (JsonRpcResponse V)

-- A pending request is its id and its deadline.
pub record Shared (V : Type 0) : Type 0 where
  pub alive : Bool
  pub ready : Bool
  pub handshake_registered : Bool
  pub closed_event_sent : Bool
  pub pending : List (ℕ × ℕ)
  pub answers : List (ℕ × Answer V)
  pub events : List (TransportEvent V)

unfoldable pub contains_key : ℕ → List (ℕ × ℕ) → Bool
contains_key id [] = false
contains_key id (entry ∷ m) = if entry.0 == id then true else contains_key id m

unfoldable pub remove : ℕ → List (ℕ × ℕ) → List (ℕ × ℕ)
remove id [] = []
remove id (entry ∷ m) = if entry.0 == id then m else entry ∷ remove id m

-- The ids whose deadline has come, and the others.
unfoldable pub expired : (now : ℕ) → List (ℕ × ℕ) → List ℕ
expired now [] = []
expired now (entry ∷ m) =
    let rest = expired now m in if leb entry.1 now then entry.0 ∷ rest else rest

unfoldable pub waiting : (now : ℕ) → List (ℕ × ℕ) → List (ℕ × ℕ)
waiting now [] = []
waiting now (entry ∷ m) = let rest = waiting now m in if leb entry.1 now then rest else entry ∷ rest

module _ {V : Type 0} where
  unfoldable pub emit : TransportEvent V → Shared V → Shared V
  emit e s = record s { events = e ∷ s.events }

  unfoldable pub answer : ℕ → Answer V → Shared V → Shared V
  answer id a s = record s { answers = (id, a) ∷ s.answers }

  -- Every pending request is answered by the error.
  unfoldable pub drained : TransportError → List (ℕ × ℕ) → List (ℕ × Answer V)
  drained e [] = []
  drained e (entry ∷ m) = (entry.0, err e) ∷ drained e m

  -- `Shared::terminate`.
  unfoldable pub terminate : TransportError → Shared V → Shared V × Bool
  unfolding drained
  terminate e s =
      if s.alive
      then (
        record s {
          alive = false;
          ready = false;
          pending = [];
          answers = drained e s.pending ++ s.answers;
        },
        true,
      )
      else (s, false)

  unfoldable pub emit_closed : Shared V → Shared V
  unfolding emit
  emit_closed s =
      if s.closed_event_sent then s else emit closed_event (record s { closed_event_sent = true })

  unfoldable pub insert_pending :
      (id deadline : ℕ) → Shared V → Shared V × Result TransportError (Unit {0})
  insert_pending id deadline s =
      if contains_key id s.pending
      then (s, err (invalid_message "请求 id 重复"))
      else (record s { pending = (id, deadline) ∷ s.pending }, ok tt)

  unfoldable pub fail_pending : ℕ → TransportError → Shared V → Shared V
  unfolding answer
  fail_pending id e s =
      if contains_key id s.pending
      then answer id (err e) (record s { pending = remove id s.pending })
      else s

  unfoldable pub timeouts : List ℕ → List (ℕ × Answer V)
  timeouts [] = []
  timeouts (id ∷ ids) = (id, err (timeout id)) ∷ timeouts ids

  -- A round of `timeout_loop` after its sleep.
  unfoldable pub expire : (now : ℕ) → Shared V → Shared V
  unfolding timeouts
  expire now s = record s {
    pending = waiting now s.pending;
    answers = timeouts (expired now s.pending) ++ s.answers;
  }

  unfoldable pub rpc_error : JsonRpcError V → TransportError
  rpc_error e = rpc e.code e.message

  unfoldable pub answer_of : JsonRpcResponse V → Option (JsonRpcError V) → Answer V
  unfolding rpc_error
  answer_of r none = ok r
  answer_of r (some e) = err (rpc_error e)

  -- `terminate`, and the event if it was this call that ended the transport.
  unfoldable pub end_with : TransportError → TransportEvent V → Shared V → Shared V
  unfolding terminate emit
  end_with e event s = let ended = terminate e s in if ended.1 then emit event ended.0 else ended.0

module _ {V : Type 0} ⦃j : Json V⦄ where
  unfoldable pub match_response : JsonRpcResponse V → Option ℕ → Shared V → Shared V
  unfolding emit answer answer_of
  match_response r none s = emit (protocol_error missing_response_id) s
  match_response r (some id) s =
      if contains_key id s.pending
      then answer id (answer_of r r.error) (record s { pending = remove id s.pending })
      else emit (unexpected_response r) s

  unfoldable pub take_frame : Result TransportError (Option (DecodedFrame V)) → Shared V → Shared V
  unfolding emit match_response
  take_frame (err e) s = emit (protocol_error e) s
  take_frame (ok none) s = s
  take_frame (ok (some (notification v))) s = emit (notified v) s
  take_frame (ok (some (response r))) s = match_response r (id_number r.id) s

  -- A round of `reader_loop` after `read_frame`; the flag says that the loop goes on.
  unfoldable pub reader_round :
      (decode : List ℕ → Result TransportError (Option (DecodedFrame V)))
      → Result TransportError (Option (List ℕ))
      → Shared V
      → Shared V × Bool
  unfolding take_frame end_with emit
  reader_round decode (ok (some frame)) s = (take_frame (decode frame) s, true)
  reader_round decode (ok none) s = (end_with eof reached_eof s, false)
  reader_round decode (err (io e)) s = (end_with (io e) (io_error (io e)) s, false)
  reader_round decode (err e) s = (emit (protocol_error e) s, true)
