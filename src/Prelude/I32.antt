-- ===== src/Prelude/I32.antt =====
-- 32-bit signed words: plain integers with the range tests written out.
use Prim.Native.Nat.{ℕ, suc, ◌+◌, ◌-◌, ◌/◌, ◌%◌, ◌^◌}
use mathlib.Core.Path.{◌≡◌}
use mathlib.Core.Bool.{Bool, ◌&&◌}
use mathlib.Core.Option.{Option, none, some}
use native.Mathlib.Omega.{arith}
use codex_quota_glance.Prelude.Tests.{leb, if◌then◌else◌}
use codex_quota_glance.Prelude.Int.{
  ℤ, pos, negsuc, pos_part, neg_part, ltb_ℤ, ◌+ℤ◌, ◌-ℤ◌, difference_lem,
}

abbrev pub fits_i32 : ℤ → Bool
fits_i32 a = leb (pos_part a) (2 ^ 31 - 1) && leb (neg_part a) (2 ^ 31)

-- `i32::try_from` of an unsigned number.
unfoldable pub i32_of : ℕ → Option ℤ
i32_of n = if leb n (2 ^ 31 - 1) then some (pos n) else none

abbrev checked : ℤ → Option ℤ
checked a = if fits_i32 a then some a else none

-- `i32::checked_add` and `i32::checked_sub`.
unfoldable pub checked_add : ℤ → ℤ → Option ℤ
checked_add a b = checked (a +ℤ b)

unfoldable pub checked_sub : ℤ → ℤ → Option ℤ
checked_sub a b = checked (a -ℤ b)

-- Plain subtraction of two words, which wraps around in a release build.
unfoldable pub wrapping_sub : ℤ → ℤ → ℤ
wrapping_sub a b =
    let d = a -ℤ b in
    if fits_i32 d then d else if ltb_ℤ d (pos 0) then d +ℤ pos (2 ^ 32) else d -ℤ pos (2 ^ 32)

-- Division by a positive number, which rounds toward zero, and its remainder.
abbrev pub quotient : ℤ → ℕ → ℤ
quotient (pos n) k = pos (n / k)
quotient (negsuc n) k = pos 0 -ℤ pos (suc n / k)

abbrev pub remainder : ℤ → ℕ → ℤ
remainder (pos n) k = pos (n % k)
remainder (negsuc n) k = pos 0 -ℤ pos (suc n % k)

-- The exact sum and difference, written without subtraction.
abbrev pub Sum : (a b c : ℤ) → Type 0
Sum a b c = pos_part c + (neg_part a + neg_part b) ≡ pos_part a + pos_part b + neg_part c

abbrev pub SumOf : (a b : ℤ) → Option ℤ → Type 0
SumOf a b none = Unit {0}
SumOf a b (some c) = Sum a b c

pub checked_add-SumOf : (a b : ℤ) → SumOf a b (checked_add a b)
unfolding checked_add
checked_add-SumOf a b =
    ground (arith, difference_lem (pos_part a + pos_part b) (neg_part a + neg_part b))

-- What `checked_sub` gives added to the subtrahend is the minuend.
abbrev pub DifferenceOf : (a b : ℤ) → Option ℤ → Type 0
DifferenceOf a b none = Unit {0}
DifferenceOf a b (some c) = Sum c b a

pub checked_sub-DifferenceOf : (a b : ℤ) → DifferenceOf a b (checked_sub a b)
unfolding checked_sub
checked_sub-DifferenceOf a b =
    ground (arith, difference_lem (pos_part a + neg_part b) (neg_part a + pos_part b))
