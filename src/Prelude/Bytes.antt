-- ===== src/Prelude/Bytes.antt =====
-- Lists of bytes or characters that are split at the first occurrence of one.
use Prim.Native.Nat.{ℕ, zero, suc, ◌-◌, ◌≤◌, min}
use mathlib.Core.Path.{◌≡◌, refl, ap, ◌∙◌}
use mathlib.Core.Logic.{inl, inr}
use mathlib.Core.Bool.{false}
use mathlib.Core.List.{List, [], ◌∷◌, ◌++◌}
use mathlib.Core.Option.{Option, none, some}
use native.Mathlib.Omega.{arith}
use codex_quota_glance.Prelude.Tests.{◌==◌, ==_iff, Bool-cases, if◌then◌else◌, option_map}
use codex_quota_glance.Prelude.Lists.{All, take, length}

-- `str::split_once`: what stands before and after the first occurrence.
unfoldable pub split_once : ℕ → List ℕ → Option (List ℕ × List ℕ)
split_once c [] = none
split_once c (x ∷ xs) =
    let rest = option_map (λ p. (x ∷ p.0, p.1)) (split_once c xs) in
    if x == c then some ([], xs) else rest

-- The text up to the first occurrence, and the pieces behind each one: `str::split`.
unfoldable pub pieces : ℕ → List ℕ → List ℕ × List (List ℕ)
pieces c [] = ([], [])
pieces c (x ∷ xs) =
    let rest = pieces c xs in if x == c then ([], rest.0 ∷ rest.1) else (x ∷ rest.0, rest.1)

unfoldable pub strip_prefix : List ℕ → List ℕ → Option (List ℕ)
strip_prefix [] text = some text
strip_prefix (c ∷ prefix) [] = none
strip_prefix (c ∷ prefix) (x ∷ text) =
    let rest = strip_prefix prefix text in if c == x then rest else none

abbrev pub HasNo : ℕ → List ℕ → Type 0
HasNo c xs = All (λ x. (x == c) ≡ false) xs

pub split_once-none : (c : ℕ) (xs : List ℕ) → HasNo c xs → split_once c xs ≡ none
unfolding split_once
split_once-none c [] h = refl
split_once-none c (x ∷ xs) h = rw (h.0, split_once-none c xs h.1) refl

pub split_once-append :
    (c : ℕ) (xs ys : List ℕ) → HasNo c xs → split_once c (xs ++ (c ∷ ys)) ≡ some (xs, ys)
unfolding split_once
split_once-append c [] ys h = ground arith
split_once-append c (x ∷ xs) ys h = rw (h.0, split_once-append c xs ys h.1) refl

-- What `split_once` may answer.
abbrev pub Splits : ℕ → List ℕ → Option (List ℕ × List ℕ) → Type 0
Splits c xs none = HasNo c xs
Splits c xs (some p) = (xs ≡ p.0 ++ (c ∷ p.1)) × HasNo c p.0

Splits-cons :
    (c x : ℕ) (xs : List ℕ) (o : Option (List ℕ × List ℕ))
    → (x == c) ≡ false
    → Splits c xs o
    → Splits c (x ∷ xs) (option_map (λ p. (x ∷ p.0, p.1)) o)
Splits-cons c x xs none e h = (e, h)
Splits-cons c x xs (some p) e h = (ap (◌∷◌ x) h.0, (e, h.1))

pub split_once-Splits : (c : ℕ) (xs : List ℕ) → Splits c xs (split_once c xs)
unfolding split_once
split_once-Splits c [] = tt
split_once-Splits c (x ∷ xs) = elim (Bool-cases (x == c)) [
  | inl e ↦ rw e (ap (λ y. y ∷ xs) ((==_iff x c).0 e), tt)
  | inr e ↦ rw e (Splits-cons c x xs (split_once c xs) e (split_once-Splits c xs))
]

pub HasNo-append : (c : ℕ) (xs ys : List ℕ) → HasNo c xs → HasNo c ys → HasNo c (xs ++ ys)
HasNo-append c [] ys h k = k
HasNo-append c (x ∷ xs) ys h k = (h.0, HasNo-append c xs ys h.1 k)

min_zero : (n : ℕ) → min n (0 - 0) ≡ 0
min_zero n = omega arith

less_by_one : (n m : ℕ) → n - m ≡ suc n - suc m
less_by_one n m = omega arith

module _ {A : Type 0} where
  pub take_all : (n : ℕ) (xs : List A) → length xs ≤ n → take n xs ≡ xs
  take_all zero [] h = refl
  take_all zero (x ∷ xs) h = absurd (omega arith)
  take_all (suc n) [] h = refl
  take_all (suc n) (x ∷ xs) h = ap (◌∷◌ x) (take_all n xs (omega arith))

  pub length-take : (n : ℕ) (xs : List A) → length (take n xs) ≡ min n (length xs)
  length-take zero xs = omega arith
  length-take (suc n) [] = omega arith
  length-take (suc n) (x ∷ xs) = omega (arith, length-take n xs)

  take-min : (n : ℕ) (xs : List A) → take n xs ≡ take (min (length xs) (n - 0)) xs
  take-min n xs = ground (arith, take_all n xs, take_all (min (length xs) n) xs)

  -- Taking in two parts.
  pub take-append :
      (n : ℕ) (xs ys : List A)
      → take n (xs ++ ys) ≡ take n xs ++ take (min (length ys) (n - length (take n xs))) ys
  take-append zero xs ys = rw (min_zero (length ys)) refl
  take-append (suc n) [] ys = take-min (suc n) ys
  take-append (suc n) (x ∷ xs) ys = ap (◌∷◌ x) (
      take-append n xs ys
      ∙ ap (λ k. take n xs ++ take (min (length ys) k) ys) (less_by_one n (length (take n xs))))

  pub take-append_long : (n : ℕ) (xs ys : List A) → n ≤ length xs → take n (xs ++ ys) ≡ take n xs
  take-append_long zero xs ys h = refl
  take-append_long (suc n) [] ys h = absurd (omega arith)
  take-append_long (suc n) (x ∷ xs) ys h = ap (◌∷◌ x) (take-append_long n xs ys (omega arith))
