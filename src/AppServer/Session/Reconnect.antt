-- ===== src/AppServer/Session/Reconnect.antt =====
-- crates/adapters-codex-app-server/src/session.rs: the loops of `reconnect_from_factory` and
-- `run_factory`. What a factory answers, and whether a wait ended by a cancellation, are inputs.
pub mod Attempts
use codex_quota_glance.Prelude.{
  ℕ, zero, suc, ◌+◌, ◌-◌, ◌==◌, min, ltb, leb, if◌then◌else◌, List, [], ◌∷◌, Option, none, some,
  Bool, true, false, ◌&&◌, not, is_some,
}
use codex_quota_glance.Prelude.F32.{F32}
use codex_quota_glance.Prelude.Duration.{Duration}
use codex_quota_glance.Prelude.Words.{u32_max}
use codex_quota_glance.AppServer.Json.{Json}
use codex_quota_glance.AppServer.Backoff.{ExponentialBackoff, delay_for}
use codex_quota_glance.AppServer.Session.{
  Session, SessionUpdate, Host, Clock, disconnected_source, stale, emit_with_reset, new_session,
}
use codex_quota_glance.AppServer.Session.Events.{
  SessionConfig, Input, Exit, was_cancelled, lost, was_closed, gone, Loop, run_transport,
}

-- `reconnect_backoff` and `max_reconnect_attempts` of the configuration.
pub record Retries : Type 0 where
  pub backoff : ExponentialBackoff
  pub most : ℕ

-- An attempt of `reconnect_from_factory`: its wait, and then the factory.
pub record Attempt : Type 0 where
  pub wait_cancelled : Bool
  pub connects : Bool
  pub clock : Clock

pub data Outcome : Type 0 where
  still_trying gave_up cancelled connected_again : Outcome

pub record Retried (A : Type 0) : Type 0 where
  pub result : A
  pub waits : List Duration
  pub outcome : Outcome

abbrev pub without_waits : {A : Type 0} → Outcome → A → Retried A
without_waits outcome a = record { result = a; waits = []; outcome = outcome }

abbrev pub after_wait : {A : Type 0} → Duration → Retried A → Retried A
after_wait d r = record { result = r.result; waits = d ∷ r.waits; outcome = r.outcome }

-- `u32::saturating_add(1)`.
abbrev pub next_attempt : ℕ → ℕ
next_attempt attempt = min (attempt + 1) u32_max

-- The tests of the two loops; a limit of 0 is none.
unfoldable pub is_reached : (most attempt : ℕ) → Bool
is_reached most attempt = not (most == 0) && leb most attempt

unfoldable pub is_passed : (most attempt : ℕ) → Bool
is_passed most attempt = not (most == 0) && ltb most attempt

module _ {V P : Type 0} ⦃j : Json V⦄ ⦃f : F32 P⦄ (h : Host V P) (r : Retries) where
  -- A failed attempt publishes the old state as stale.
  unfoldable pub emit_stale : Clock → Session V P → Session V P
  emit_stale clock s =
      emit_with_reset h clock false
        (record s { health = disconnected_source; freshness = stale; last_data = none })

  -- With a new connection `run_transport` begins anew, with the same channel.
  unfoldable pub reconnect_from_factory : List Attempt → ℕ → Session V P → Retried (Session V P)
  reconnect_from_factory [] attempt s = without_waits still_trying s
  reconnect_from_factory (a ∷ as') attempt s =
      let failed = emit_stale a.clock s in
      let rest = reconnect_from_factory as' (next_attempt attempt) failed in
      after_wait (delay_for r.backoff attempt) (
        if a.wait_cancelled
        then without_waits cancelled s
        else if a.connects
        then without_waits connected_again (new_session h s.updates)
        else if is_reached r.most (next_attempt attempt)
        then without_waits gave_up failed
        else rest)

-- A connection of `run_factory`: what its loop reads, the attempts after its loss, and what the
-- loop of a second connection reads.
pub record Connection (V : Type 0) : Type 0 where
  pub begins : ℕ
  pub inputs : List (Input V)
  pub attempts : List Attempt
  pub begins_again : ℕ
  pub later_inputs : List (Input V)

-- A round of `run_factory`: the flag at its head, the factory, the flag after the connection, and
-- the wait.
pub record FactoryRound (V : Type 0) : Type 0 where
  pub stops : Bool
  pub connection : Option (Connection V)
  pub clock : Clock
  pub stops_after : Bool
  pub wait_cancelled : Bool

module _ {V P : Type 0} ⦃j : Json V⦄ ⦃f : F32 P⦄ (h : Host V P) (c : SessionConfig)
    (r : Retries) where
  abbrev run_new : ℕ → List (Input V) → List (SessionUpdate V P) → Loop V P
  run_new begins inputs updates =
      run_transport h c inputs
        (record { session = new_session h updates; next_refresh = begins; exit = none })

  unfoldable pub run_again :
      Connection V → Outcome → List (SessionUpdate V P) → List (SessionUpdate V P)
  run_again n connected_again updates =
      (run_new n.begins_again n.later_inputs updates).session.updates
  run_again n _ updates = updates

  unfoldable pub after_exit : Connection V → Option Exit → Session V P → List (SessionUpdate V P)
  unfolding run_again
  after_exit n (some lost) s =
      let x = reconnect_from_factory h r n.attempts 0 s in run_again n x.outcome x.result.updates
  after_exit n _ s = s.updates

  -- `run_transport` with a factory.
  unfoldable pub serve : Connection V → List (SessionUpdate V P) → List (SessionUpdate V P)
  unfolding after_exit
  serve n updates = let l = run_new n.begins n.inputs updates in after_exit n l.exit l.session

  unfoldable pub emit_health_only : Clock → List (SessionUpdate V P) → List (SessionUpdate V P)
  emit_health_only clock updates =
      (emit_with_reset h clock false
        (record (new_session h updates) { health = disconnected_source })).updates

  -- The updates after the `match` on the factory, and the number of attempts.
  unfoldable pub answered :
      Clock → Option (Connection V) → List (SessionUpdate V P) → List (SessionUpdate V P)
  unfolding serve
  answered clock none updates = emit_health_only clock updates
  answered clock (some n) updates = serve n updates

  unfoldable pub attempts_after : Option (Connection V) → ℕ → ℕ
  attempts_after none attempt = next_attempt attempt
  attempts_after (some n) attempt = 1

  unfoldable pub run_factory :
      List (FactoryRound V) → ℕ → List (SessionUpdate V P) → Retried (List (SessionUpdate V P))
  unfolding answered attempts_after
  run_factory [] attempt updates = without_waits still_trying updates
  run_factory (x ∷ xs) attempt updates =
      let updates' = answered x.clock x.connection updates in
      let attempt' = attempts_after x.connection attempt in
      let rest = run_factory xs attempt' updates' in
      if x.stops
      then without_waits cancelled updates
      else if is_some x.connection && x.stops_after
      then without_waits cancelled updates'
      else if is_passed r.most attempt'
      then without_waits gave_up (emit_health_only x.clock updates')
      else after_wait (delay_for r.backoff (attempt' - 1))
          (if x.wait_cancelled then without_waits cancelled updates' else rest)
