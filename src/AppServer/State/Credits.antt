-- ===== src/AppServer/State/Credits.antt =====
-- The expiry times of the reset credits.
use codex_quota_glance.Prelude.{List, [], ◌∷◌}
use codex_quota_glance.Prelude.Int.{ℤ, ◌≤ℤ◌, ◌<ℤ◌}
use codex_quota_glance.AppServer.Json.{Json}

-- The times do not fall, from a first one on.
abbrev From : ℤ → List ℤ → Type 0
From t [] = Unit {0}
From t (u ∷ times) = (t ≤ℤ u) × From u times

abbrev pub Rising : List ℤ → Type 0
Rising [] = Unit {0}
Rising (t ∷ []) = Unit {0}
Rising (t ∷ (u ∷ times)) = (t <ℤ u) × Rising (u ∷ times)

abbrev IsSorted : List ℤ → Type 0
IsSorted [] = Unit {0}
IsSorted (t ∷ times) = From t times
