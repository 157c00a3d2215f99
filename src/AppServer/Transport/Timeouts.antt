-- ===== src/AppServer/Transport/Timeouts.antt =====
-- crates/adapters-codex-app-server/src/transport.rs: one round of the timeouts, after its sleep.
use codex_quota_glance.Prelude.{ℕ, ◌<◌, ◌≡◌, List, [], ◌∷◌, All, arith}
use codex_quota_glance.AppServer.Transport.Channels.{waiting}
use codex_quota_glance.AppServer.Transport.System.{System, sleeping}
use codex_quota_glance.AppServer.Transport.Threads.{tick_timeouts}
use codex_quota_glance.AppServer.Transport.Conservation.{shared_count, expire-count}

waiting-All : (now : ℕ) (m : List (ℕ × ℕ)) → All (λ e. now < e.1) (waiting now m)
unfolding waiting
waiting-All now [] = tt
waiting-All now (entry ∷ m) = ground (arith, waiting-All now m)

-- A round of the timeouts, after the sleep of its loop, answers every request whose deadline has
-- come, and loses none: what is pending afterwards has a later deadline, and each id is pending or
-- answered as often as before.
pub tick_timeouts_lem :
    {V : Type 0} (now : ℕ) (s : System V) (x : ℕ)
    → s.timer ≡ sleeping
    → All (λ e. now < e.1) (tick_timeouts now s.timer s).shared.pending
      × (shared_count x (tick_timeouts now s.timer s).shared ≡ shared_count x s.shared)
unfolding tick_timeouts shared_count
tick_timeouts_lem now s x h = rw h (waiting-All now s.shared.pending, expire-count x now s.shared)
