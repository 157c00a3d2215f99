-- ===== src/AppServer/Session/Reconnect/Attempts.antt =====
-- When the loops that connect again give up.
use codex_quota_glance.Prelude.{
  ℕ, ◌∙◌, zero, suc, ◌+◌, ◌-◌, ◌≤◌, ◌<◌, ◌≡◌, refl, List, [], ◌∷◌, length, All, none, true, false,
  arith, ap,
}
use codex_quota_glance.Prelude.F32.{F32}
use codex_quota_glance.Prelude.Duration.{Duration}
use codex_quota_glance.Prelude.Words.{u32_max}
use codex_quota_glance.AppServer.Json.{Json}
use codex_quota_glance.AppServer.Backoff.{ExponentialBackoff, delay_for}
use codex_quota_glance.AppServer.Session.{Session, SessionUpdate, Host, emit_with_reset}
use codex_quota_glance.AppServer.Session.Events.{SessionConfig}
use codex_quota_glance.AppServer.Session.Reconnect.{
  Retries, Attempt, gave_up, is_reached, is_passed, next_attempt, emit_stale,
  reconnect_from_factory, FactoryRound, run_factory, answered, attempts_after, emit_health_only,
}

-- `n` delays, from one on.
abbrev pub delays : ExponentialBackoff → ℕ → ℕ → List Duration
delays b first zero = []
delays b first (suc n) = delay_for b first ∷ delays b (suc first) n

-- The wait is not cancelled, and the factory fails.
abbrev pub Fails : Attempt → Type 0
Fails a = (a.wait_cancelled ≡ false) × (a.connects ≡ false)

reached-last :
    (attempt most : ℕ)
    → attempt + 1 ≡ most
    → most ≤ u32_max
    → is_reached most (next_attempt attempt) ≡ true
unfolding is_reached
reached-last attempt most e m = ground arith

reached-earlier :
    (attempt n most : ℕ)
    → attempt + suc (suc n) ≡ most
    → most ≤ u32_max
    → (is_reached most (next_attempt attempt) ≡ false) × (next_attempt attempt ≡ suc attempt)
unfolding is_reached
reached-earlier attempt n most e m = ground arith

module _ {V P : Type 0} ⦃j : Json V⦄ ⦃f : F32 P⦄ (h : Host V P) (r : Retries) where
  attempts_from :
      (attempts : List Attempt) (attempt n : ℕ) (s : Session V P)
      → All Fails attempts
      → attempt + suc n ≡ r.most
      → r.most ≤ u32_max
      → suc n ≤ length attempts
      → ((reconnect_from_factory h r attempts attempt s).outcome ≡ gave_up)
        × ((reconnect_from_factory h r attempts attempt s).waits ≡ delays r.backoff attempt (suc n))
  unfolding reconnect_from_factory
  attempts_from [] attempt n s f e m l = absurd (omega (arith, l))
  attempts_from (a ∷ as') attempt zero s f e m l =
      rw (f.0.0, f.0.1, reached-last attempt r.most e m) (refl, refl)
  attempts_from (a ∷ as') attempt (suc n) s f e m l =
      let earlier = reached-earlier attempt n r.most e m in
      let rest =
        attempts_from as' (suc attempt) n (emit_stale h r a.clock s) f.1 (omega (arith, e)) m
          (omega (arith, l)) in
      rw (f.0.0, f.0.1, earlier.0, earlier.1)
        (rest.0, ap (λ ds. delay_for r.backoff attempt ∷ ds) rest.1)

  -- If no wait is cancelled and every attempt fails, `reconnect_from_factory` gives up after as
  -- many attempts as the configuration allows, where that is not 0, with the delays of the
  -- backoff from the first on.
  pub reconnect_from_factory_lem :
      (attempts : List Attempt) (s : Session V P)
      → All Fails attempts
      → 0 < r.most
      → r.most ≤ u32_max
      → r.most ≤ length attempts
      → ((reconnect_from_factory h r attempts 0 s).outcome ≡ gave_up)
        × ((reconnect_from_factory h r attempts 0 s).waits ≡ delays r.backoff 0 r.most)
  reconnect_from_factory_lem attempts s f p m l =
      let same : suc (r.most - 1) ≡ r.most = omega (arith, p) in
      let x =
        attempts_from attempts 0 (r.most - 1) s f (omega (arith, p)) m (omega (arith, p, l)) in
      (x.0, x.1 ∙ ap (delays r.backoff 0) same)

-- The loop goes on, the factory fails, and the wait is not cancelled.
abbrev pub RoundFails : {V : Type 0} → FactoryRound V → Type 0
RoundFails x = (x.stops ≡ false) × (x.connection ≡ none) × (x.wait_cancelled ≡ false)

passed-last : (most : ℕ) → 0 < most → most < u32_max → is_passed most (next_attempt most) ≡ true
unfolding is_passed
passed-last most p m = ground arith

passed-earlier :
    (attempt n most : ℕ)
    → attempt + suc n ≡ most
    → most < u32_max
    → (is_passed most (next_attempt attempt) ≡ false) × (next_attempt attempt ≡ suc attempt)
unfolding is_passed
passed-earlier attempt n most e m = ground arith

module _ {V P : Type 0} ⦃j : Json V⦄ ⦃f : F32 P⦄ (h : Host V P) (c : SessionConfig)
    (r : Retries) where
  rounds_from :
      (rounds : List (FactoryRound V)) (attempt n : ℕ) (updates : List (SessionUpdate V P))
      → All RoundFails rounds
      → attempt + n ≡ r.most
      → 0 < r.most
      → r.most < u32_max
      → suc n ≤ length rounds
      → ((run_factory h c r rounds attempt updates).outcome ≡ gave_up)
        × ((run_factory h c r rounds attempt updates).waits ≡ delays r.backoff attempt n)
        × (length (run_factory h c r rounds attempt updates).result ≡ length updates + suc (suc n))
  unfolding run_factory answered attempts_after emit_health_only emit_with_reset
  rounds_from [] attempt n updates f e p m l = absurd (omega (arith, l))
  rounds_from (x ∷ xs) attempt zero updates f e p m l =
      let same : attempt ≡ r.most = omega (arith, e) in
      rw (f.0.0, f.0.1, same, passed-last r.most p m) (refl, refl, omega arith)
  rounds_from (x ∷ xs) attempt (suc n) updates f e p m l =
      let earlier = passed-earlier attempt n r.most e m in
      let published = emit_health_only h c r x.clock updates in
      let before : suc attempt - 1 ≡ attempt = omega arith in
      let rest =
        rounds_from xs (suc attempt) n published f.1 (omega (arith, e)) p m (omega (arith, l)) in
      rw (f.0.0, f.0.1, f.0.2, earlier.0, earlier.1)
        (
          rest.0,
          ap (λ k. delay_for r.backoff k ∷ (run_factory h c r xs (suc attempt) published).waits)
                before
              ∙ ap (λ ds. delay_for r.backoff attempt ∷ ds) rest.1,
          omega (arith, rest.2),
        )

  -- If every factory call fails and nothing is cancelled, `run_factory` gives up, where its limit
  -- of attempts is not 0: after one failed call more than the limit, each of which publishes an
  -- update, and a last update. It waits between the calls by the backoff from the first delay on.
  run_factory_lem :
      (rounds : List (FactoryRound V)) (updates : List (SessionUpdate V P))
      → All RoundFails rounds
      → 0 < r.most
      → r.most < u32_max
      → r.most < length rounds
      → ((run_factory h c r rounds 0 updates).outcome ≡ gave_up)
        × ((run_factory h c r rounds 0 updates).waits ≡ delays r.backoff 0 r.most)
        × (length (run_factory h c r rounds 0 updates).result ≡ length updates + (r.most + 2))
  run_factory_lem rounds updates f p m l =
      let x = rounds_from rounds 0 r.most updates f (omega arith) p m (omega (arith, l)) in
      (x.0, x.1, omega (arith, x.2))
