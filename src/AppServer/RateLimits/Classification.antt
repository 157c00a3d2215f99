-- ===== src/AppServer/RateLimits/Classification.antt =====
-- Windows are told apart by their duration alone.
use codex_quota_glance.Prelude.{
  ℕ, ◌==◌, ◌≡◌, ◌≢◌, Option, none, some, if◌then◌else◌, option_map, arith,
}
use codex_quota_glance.Prelude.Int.{ℤ}
use codex_quota_glance.Prelude.F32.{F32}
use codex_quota_glance.AppServer.RateLimits.{RateLimitWindow, classify, snapshot_of, quota_value}

module _ {P : Type 0} where
  abbrev lasts : ℕ → Option (RateLimitWindow P) → Option (RateLimitWindow P)
  lasts minutes none = none
  lasts minutes (some w) = if w.window_duration_mins == minutes then some w else none

  -- The first of the two windows that has the duration.
  abbrev pub first_lasting :
      ℕ → (primary secondary : Option (RateLimitWindow P)) → Option (RateLimitWindow P)
  first_lasting minutes primary secondary = elim (lasts minutes primary) [
    | some w ↦ some w
    | none ↦ lasts minutes secondary
  ]

  abbrev pub Differ : (primary secondary : Option (RateLimitWindow P)) → Type 0
  Differ (some a) (some b) = a.window_duration_mins ≢ b.window_duration_mins
  Differ _ _ = Unit {0}

module _ {P : Type 0} ⦃f : F32 P⦄ where
  -- The five-hour value is that of the first window of 300 minutes and the weekly value that of the
  -- first of 10,080; a window of any other duration becomes neither.
  pub snapshot_of_lem :
      (primary secondary : Option (RateLimitWindow P)) (observed_at : ℤ) (revision : ℕ)
      → let s = snapshot_of primary secondary observed_at revision in
        (s.five_hour ≡ option_map quota_value (first_lasting 300 primary secondary))
        × (s.weekly ≡ option_map quota_value (first_lasting 10_080 primary secondary))
  unfolding snapshot_of classify
  snapshot_of_lem primary secondary observed_at revision = ground arith

  -- Two windows of different durations give the same snapshot whichever of them the server calls
  -- the primary one.
  snapshot_of-swap :
      (primary secondary : Option (RateLimitWindow P)) (observed_at : ℤ) (revision : ℕ)
      → Differ primary secondary
      → snapshot_of primary secondary observed_at revision
        ≡ snapshot_of secondary primary observed_at revision
  unfolding snapshot_of classify
  snapshot_of-swap primary secondary observed_at revision d = ground arith
