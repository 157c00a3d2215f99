-- ===== src/AppServer/Transport/Tests.antt =====
-- Tests of the threads of the transport, and the theorems at concrete schedules.
use codex_quota_glance.Prelude.{
  ℕ, ◌≤◌, ◌<◌, ◌≡◌, refl, List, [], ◌∷◌, none, some, false, All, Option,
}
use codex_quota_glance.Prelude.Results.{Result, ok}
use codex_quota_glance.AppServer.Json.{Json}
use codex_quota_glance.AppServer.Json.Trees.{Tree, null, number, trees, as_u64_tree}
use codex_quota_glance.AppServer.Codec.{TransportError}
use codex_quota_glance.AppServer.Codec.Decode.{JsonRpcResponse, DecodedFrame, response}
use codex_quota_glance.AppServer.Transport.Channels.{
  insert_pending, contains_key, remove, drained, waiting, expired,
}
use codex_quota_glance.AppServer.Transport.Supervisor.{
  register, send_initialize, handshake_result, find_answer, send_initialized, next_command,
  admit_registered, send_bytes, leave_drained, drain_commands,
}
use codex_quota_glance.AppServer.Transport.System.{
  System, Action, request, start, finish_handshake, take_command, check_alive, admit, read, look,
  tick, sleeping, admitted, finished, started, queued_ids,
}
use codex_quota_glance.AppServer.Transport.Threads.{run, step, tick_timeouts}
use codex_quota_glance.AppServer.Transport.Conservation.{shared_count}
use codex_quota_glance.AppServer.Transport.Totals.{total}
use codex_quota_glance.AppServer.Transport.Once.{run_once}
use codex_quota_glance.AppServer.Transport.Timeouts.{tick_timeouts_lem}

instance abbrev tree_values : Json Tree
tree_values = trees

-- A frame of one byte is the response with that id.
abbrev numbered : ℕ → JsonRpcResponse Tree
numbered id = record { jsonrpc = none; id = some (number id); result = some null; error = none }

abbrev decode : List ℕ → Result TransportError (Option (DecodedFrame Tree))
decode [] = ok none
decode (id ∷ bytes) = ok (some (response (numbered id)))

-- The handshake, and a request that the supervisor has seen and not yet registered.
abbrev in_hand : List Action
in_hand =
    request (ok [])
    ∷ start 10 (ok [])
    ∷ read (ok (some (1 ∷ [])))
    ∷ finish_handshake false (ok [])
    ∷ take_command
    ∷ check_alive
    ∷ []

abbrev two_requests : List Action
two_requests =
    request (ok [])
    ∷ start 10 (ok [])
    ∷ read (ok (some (1 ∷ [])))
    ∷ finish_handshake false (ok [])
    ∷ take_command
    ∷ check_alive
    ∷ admit 20
    ∷ read (ok (some (2 ∷ [])))
    ∷ []

in_hand_phase : (run decode in_hand started).phase ≡ admitted 2 (ok [])
unfolding run step trees as_u64_tree register insert_pending contains_key remove send_initialize
    handshake_result find_answer send_initialized next_command admit_registered send_bytes drained
    waiting expired leave_drained drain_commands queued_ids
in_hand_phase = refl

both_answered :
    (run decode two_requests started).shared.answers
    ≡ (2, ok (numbered 2)) ∷ (1, ok (numbered 1)) ∷ []
unfolding run step trees as_u64_tree register insert_pending contains_key remove send_initialize
    handshake_result find_answer send_initialized next_command admit_registered send_bytes drained
    waiting expired leave_drained drain_commands queued_ids
both_answered = refl

-- The stream ends between the look at the flag and the registration: the request stays pending,
-- and no later step of the supervisor, the reader or the timeouts answers it.
abbrev overtaken : List Action
overtaken =
    request (ok [])
    ∷ start 10 (ok [])
    ∷ read (ok (some (1 ∷ [])))
    ∷ finish_handshake false (ok [])
    ∷ take_command
    ∷ look
    ∷ check_alive
    ∷ read (ok none)
    ∷ admit 20
    ∷ tick 19
    ∷ look
    ∷ take_command
    ∷ tick 99
    ∷ read (ok (some (2 ∷ [])))
    ∷ []

overtaken_pending : (run decode overtaken started).shared.pending ≡ (2, 20) ∷ []
unfolding run step trees as_u64_tree register insert_pending contains_key remove send_initialize
    handshake_result find_answer send_initialized next_command admit_registered send_bytes drained
    waiting expired leave_drained drain_commands queued_ids
overtaken_pending = refl

overtaken_phase : (run decode overtaken started).phase ≡ finished
unfolding run step trees as_u64_tree register insert_pending contains_key remove send_initialize
    handshake_result find_answer send_initialized next_command admit_registered send_bytes drained
    waiting expired leave_drained drain_commands queued_ids
overtaken_phase = refl

run_once_example : total 2 (run decode two_requests started) ≤ 1
run_once_example = run_once decode 2 two_requests

abbrev waiting_two : System Tree
waiting_two = record started {
  shared = record started.shared { pending = (2, 20) ∷ (3, 40) ∷ [] };
  timer = sleeping;
}

tick_timeouts_lem_example :
    All (λ e. 30 < e.1) (tick_timeouts 30 waiting_two.timer waiting_two).shared.pending
    × (shared_count 2 (tick_timeouts 30 waiting_two.timer waiting_two).shared
        ≡ shared_count 2 waiting_two.shared)
tick_timeouts_lem_example = tick_timeouts_lem 30 waiting_two 2 refl
