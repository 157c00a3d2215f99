-- ===== src/Prelude/Words.antt =====
-- Saturating arithmetic on unsigned machine words, which are plain numbers with a stated bound.
use Prim.Native.Nat.{ℕ, ◌+◌, ◌-◌, ◌*◌, ◌^◌, ◌≤◌, min}
use mathlib.Core.Path.{◌≡◌, refl}
use native.Mathlib.Omega.{arith}

abbrev pub u64_max : ℕ
u64_max = 2 ^ 64 - 1

abbrev pub u32_max : ℕ
u32_max = 2 ^ 32 - 1

-- `u64::saturating_add` and `u64::saturating_mul`.
unfoldable pub saturating_add : ℕ → ℕ → ℕ
saturating_add a b = min (a + b) u64_max

unfoldable pub saturating_mul : ℕ → ℕ → ℕ
saturating_mul a b = min (a * b) u64_max

pub saturating_add_lem : (a b : ℕ) → saturating_add a b ≡ min (a + b) u64_max
unfolding saturating_add
saturating_add_lem a b = refl

pub saturating_add-le : (a b : ℕ) → saturating_add a b ≤ u64_max
unfolding saturating_add
saturating_add-le a b = omega arith
