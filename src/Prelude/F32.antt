-- ===== src/Prelude/F32.antt =====
-- The `f32` operations that the program uses on percentages, as an interface: the type and its
-- arithmetic are the machine's. `Laws` holds the facts of IEEE 754 that the theorems rest on.
use codex_quota_glance.Prelude.Tests.{ltb, leb, if◌then◌else◌}
use Prim.Native.Nat.{ℕ, ◌-◌}
use mathlib.Core.Path.{◌≡◌, refl}
use mathlib.Core.Bool.{Bool, false}
use native.Mathlib.Omega.{arith}

pub record F32 (P : Type 0) : Type 0 where
  pub lt : P → P → Bool
  pub le : P → P → Bool
  pub sub : P → P → P
  pub zero_percent : P
  pub hundred_percent : P

-- A comparison with NaN is false, so each of these holds of NaN too. `sub_mono` says that a
-- difference is rounded monotonically.
pub record Laws {P : Type 0} (f : F32 P) : Type 0 where
  pub lt_irrefl : (x : P) → f.lt x x ≡ false
  pub zero_below : f.lt f.hundred_percent f.zero_percent ≡ false
  pub sub_mono : (a b c : P) → f.lt a b ≡ false → f.lt (f.sub c b) (f.sub c a) ≡ false
  pub sub_self : f.sub f.hundred_percent f.hundred_percent ≡ f.zero_percent
  pub sub_zero : f.sub f.hundred_percent f.zero_percent ≡ f.hundred_percent

module _ {P : Type 0} ⦃f : F32 P⦄ where
  -- `f32::clamp(0.0, 100.0)`: NaN stays as it is.
  abbrev pub clamp_percent : P → P
  clamp_percent x =
      if f.lt x f.zero_percent
      then f.zero_percent
      else if f.lt f.hundred_percent x
      then f.hundred_percent
      else x

-- Whole percentages, for tests.
abbrev pub whole : F32 ℕ
whole = record { lt = ltb; le = leb; sub = λ a b. a - b; zero_percent = 0; hundred_percent = 100 }

pub whole-Laws : Laws whole
whole-Laws = record {
  lt_irrefl = λ x. ground arith;
  zero_below = refl;
  sub_mono = λ a b c h. ground arith;
  sub_self = refl;
  sub_zero = refl;
}
