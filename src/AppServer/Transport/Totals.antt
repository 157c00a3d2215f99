-- ===== src/AppServer/Transport/Totals.antt =====
-- Every step keeps the number of requests with an id, but a call for a new one.
use codex_quota_glance.Prelude.{ℕ, ◌+◌, ◌≤◌, ◌≡◌, refl, ◌∙◌, ap, List, [], ◌∷◌, ◌++◌, arith}
use codex_quota_glance.Prelude.Results.{Result, ok, err}
use codex_quota_glance.AppServer.Codec.{TransportError, closed}
use codex_quota_glance.AppServer.Transport.Channels.{Shared, answer, terminate}
use codex_quota_glance.AppServer.Transport.System.{
  System, Command, request_command, close_command, Phase, starting, received, admitted,
  initialize_id, queued_ids, send_request_with_id, close_transport,
}
use codex_quota_glance.AppServer.Transport.Supervisor.{
  leave, drain_commands, leave_drained, fail_start,
}
use codex_quota_glance.AppServer.Transport.Conservation.{
  one, count, count-append, shared_count, emit-count, terminate-count, emit_closed-count,
  answer-count, fail_pending-count,
}

-- The request that the supervisor has in hand.
unfoldable pub phase_ids : Phase → List ℕ
phase_ids starting = initialize_id ∷ []
phase_ids (received id enc) = id ∷ []
phase_ids (admitted id enc) = id ∷ []
phase_ids _ = []

queued_ids-append : (cs ds : List Command) → queued_ids (cs ++ ds) ≡ queued_ids cs ++ queued_ids ds
unfolding queued_ids
queued_ids-append [] ds = refl
queued_ids-append (request_command id enc ∷ cs) ds = ap (◌∷◌ id) (queued_ids-append cs ds)
queued_ids-append (close_command ∷ cs) ds = queued_ids-append cs ds

module _ (x : ℕ) {V : Type 0} where
  -- The requests with the id `x`: queued, in the supervisor's hand, pending, answered, dropped.
  unfoldable pub total : System V → ℕ
  total s =
      shared_count x s.shared
      + count x (queued_ids s.queue)
      + count x (phase_ids s.phase)
      + count x s.dropped

  pub send_request_with_id-total :
      (id : ℕ) (enc : Result TransportError (List ℕ)) (s : System V)
      → total (send_request_with_id id enc s).0 ≤ one x id + total s
  unfolding send_request_with_id total queued_ids count
  send_request_with_id-total id (err e) s = omega arith
  send_request_with_id-total id (ok bytes) s = ground (
    arith,
    queued_ids-append s.queue (request_command id (ok bytes) ∷ []),
    count-append x (queued_ids s.queue) (id ∷ []),
  )

  pub close_transport-total : (s : System V) → total (close_transport s).0 ≡ total s
  unfolding close_transport total queued_ids count
  close_transport-total s = ground (
    arith,
    queued_ids-append s.queue (close_command ∷ []),
    count-append x (queued_ids s.queue) [],
    emit_closed-count x s.shared,
    emit_closed-count x (terminate closed s.shared).0,
    terminate-count x closed s.shared,
  )

  pub leave-total :
      (sh : Shared V) (s : System V)
      → total (leave sh s) ≡ shared_count x sh + count x (queued_ids s.queue) + count x s.dropped
  unfolding leave total phase_ids queued_ids count
  leave-total sh s = omega (arith, count-append x (queued_ids s.queue) s.dropped)

  pub drain_commands-count :
      (e : TransportError) (cs : List Command) (sh : Shared V)
      → shared_count x (drain_commands e cs sh) ≡ count x (queued_ids cs) + shared_count x sh
  unfolding drain_commands queued_ids count
  drain_commands-count e [] sh = omega arith
  drain_commands-count e (request_command id enc ∷ cs) sh =
      omega (arith, drain_commands-count e cs (answer id (err e) sh), answer-count x id (err e) sh)
  drain_commands-count e (close_command ∷ cs) sh = drain_commands-count e cs sh

  pub leave_drained-total :
      (sh : Shared V) (s : System V)
      → total (leave_drained sh s)
        ≡ shared_count x sh + count x (queued_ids s.queue) + count x s.dropped
  unfolding leave_drained total phase_ids queued_ids count
  leave_drained-total sh s = omega (arith, drain_commands-count closed s.queue sh)

  pub fail_start-count :
      (e : TransportError) (sh : Shared V) → shared_count x (fail_start e sh) ≡ shared_count x sh
  unfolding fail_start
  fail_start-count e sh =
      terminate-count x e _ ∙ (emit-count x _ _ ∙ fail_pending-count x initialize_id e sh)
