-- ===== src/Prelude/Int.antt =====
-- Signed integers over the native numbers, for `i64` time stamps and `i32` keys and coordinates.
use Prim.Native.Nat.{ℕ, suc, ◌+◌, ◌-◌, ◌≤◌, ◌<◌}
use mathlib.Core.Logic.{◌⊎◌}
use mathlib.Core.Path.{◌≡◌}
use mathlib.Core.Bool.{Bool, true}
use native.Mathlib.Omega.{arith}
use codex_quota_glance.Prelude.Tests.{ltb, leb, ◌==◌, if◌then◌else◌}

-- `negsuc n` is -(n + 1).
pub data ℤ : Type 0 where
  pos : ℕ → ℤ
  negsuc : ℕ → ℤ

abbrev pub pos_part : ℤ → ℕ
pos_part (pos n) = n
pos_part (negsuc n) = 0

abbrev pub neg_part : ℤ → ℕ
neg_part (pos n) = 0
neg_part (negsuc n) = suc n

infix 50 ◌≤ℤ◌ ◌<ℤ◌
abbrev pub ◌≤ℤ◌ : ℤ → ℤ → Type 0
a ≤ℤ b = pos_part a + neg_part b ≤ pos_part b + neg_part a

abbrev pub ◌<ℤ◌ : ℤ → ℤ → Type 0
a <ℤ b = pos_part a + neg_part b < pos_part b + neg_part a

abbrev pub ltb_ℤ : ℤ → ℤ → Bool
ltb_ℤ a b = ltb (pos_part a + neg_part b) (pos_part b + neg_part a)

abbrev pub eqb_ℤ : ℤ → ℤ → Bool
eqb_ℤ a b = (pos_part a + neg_part b) == (pos_part b + neg_part a)

-- `Ord::max`, which gives the second where they are equal.
abbrev pub max_ℤ : ℤ → ℤ → ℤ
max_ℤ a b = if ltb_ℤ b a then a else b

abbrev pub leb_ℤ : ℤ → ℤ → Bool
leb_ℤ a b = leb (pos_part a + neg_part b) (pos_part b + neg_part a)

-- The integer `p - n`.
unfoldable pub difference : (p n : ℕ) → ℤ
difference p n = if ltb p n then negsuc (n - p - 1) else pos (p - n)

infixl 60 ◌+ℤ◌ ◌-ℤ◌
abbrev pub ◌+ℤ◌ : ℤ → ℤ → ℤ
a +ℤ b = difference (pos_part a + pos_part b) (neg_part a + neg_part b)

abbrev pub ◌-ℤ◌ : ℤ → ℤ → ℤ
a -ℤ b = difference (pos_part a + neg_part b) (neg_part a + pos_part b)

pub difference_lem :
    (p n : ℕ)
    → (pos_part (difference p n) + n ≡ p + neg_part (difference p n))
      × ((pos_part (difference p n) ≡ 0) ⊎ (neg_part (difference p n) ≡ 0))
unfolding difference
difference_lem p n = ground arith

pub eq_of_parts : (a b : ℤ) → pos_part a + neg_part b ≡ pos_part b + neg_part a → a ≡ b
eq_of_parts a b h = ground arith

pub eqb_ℤ→eq : (a b : ℤ) → eqb_ℤ a b ≡ true → a ≡ b
eqb_ℤ→eq a b h = ground (arith, eq_of_parts a b)

pub max_ℤ_comm : (a b : ℤ) → max_ℤ a b ≡ max_ℤ b a
max_ℤ_comm a b = ground (arith, eq_of_parts a b)

pub le-max_ℤ_left : (a b : ℤ) → a ≤ℤ max_ℤ a b
le-max_ℤ_left a b = ground arith

pub le-max_ℤ_right : (a b : ℤ) → b ≤ℤ max_ℤ a b
le-max_ℤ_right a b = ground arith
