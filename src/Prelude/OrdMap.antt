-- ===== src/Prelude/OrdMap.antt =====
-- `BTreeMap<i32, V>` as an association list whose keys rise.
use Prim.Native.Nat.{ℕ, ◌+◌, ◌≤◌}
use mathlib.Core.Path.{◌≡◌, refl}
use mathlib.Core.List.{List, [], ◌∷◌}
use mathlib.Core.Option.{Option, none, some}
use native.Mathlib.Omega.{arith}
use codex_quota_glance.Prelude.Tests.{ltb, if◌then◌else◌}
use codex_quota_glance.Prelude.Lists.{length, All}
use codex_quota_glance.Prelude.Int.{ℤ, ltb_ℤ, eqb_ℤ, ◌<ℤ◌, eq_of_parts}

module _ {ℓ} {V : Type ℓ} where
  unfoldable pub lookup : ℤ → List (ℤ × V) → Option V
  lookup k [] = none
  lookup k ((j, v) ∷ m) = if eqb_ℤ j k then some v else lookup k m

  unfoldable pub insert : ℤ → V → List (ℤ × V) → List (ℤ × V)
  insert k v [] = (k, v) ∷ []
  insert k v ((j, w) ∷ m) =
      if eqb_ℤ j k
      then (k, v) ∷ m
      else if ltb_ℤ k j
      then (k, v) ∷ (j, w) ∷ m
      else (j, w) ∷ insert k v m

  -- `while len > n { remove the first key }`.
  unfoldable pub keep_last : ℕ → List (ℤ × V) → List (ℤ × V)
  keep_last n [] = []
  keep_last n (x ∷ m) = let rest = keep_last n m in if ltb n (length (x ∷ m)) then rest else x ∷ m

  -- The keys rise.
  abbrev pub Above : ℤ → List (ℤ × V) → Type 0
  Above k [] = Unit
  Above k ((j, v) ∷ m) = (k <ℤ j) × Above j m

  abbrev pub IsSorted : List (ℤ × V) → Type 0
  IsSorted [] = Unit
  IsSorted ((j, v) ∷ m) = Above j m

  -- A predicate on every value.
  abbrev pub Values {κ} : (V → Type κ) → List (ℤ × V) → Type κ
  Values P = All (λ e. P e.1)

  Above-insert : (i k : ℤ) (v : V) (m : List (ℤ × V)) → i <ℤ k → Above i m → Above i (insert k v m)
  unfolding insert
  Above-insert i k v [] h s = (h, tt)
  Above-insert i k v ((j, w) ∷ m) h s = ground (arith, Above-insert j k v m, eq_of_parts j k)

  pub insert-IsSorted : (k : ℤ) (v : V) (m : List (ℤ × V)) → IsSorted m → IsSorted (insert k v m)
  unfolding insert
  insert-IsSorted k v [] s = tt
  insert-IsSorted k v ((j, w) ∷ m) s = ground (arith, Above-insert j k v m, eq_of_parts j k)

  pub length-insert-le : (k : ℤ) (v : V) (m : List (ℤ × V)) → length (insert k v m) ≤ length m + 1
  unfolding insert
  length-insert-le k v [] = omega arith
  length-insert-le k v (x ∷ m) = ground (arith, length-insert-le k v m)

  pub length-keep_last-le : (n : ℕ) (m : List (ℤ × V)) → length (keep_last n m) ≤ n
  unfolding keep_last
  length-keep_last-le n [] = omega arith
  length-keep_last-le n (x ∷ m) = ground (arith, length-keep_last-le n m)

  pub keep_last_all : (n : ℕ) (m : List (ℤ × V)) → length m ≤ n → keep_last n m ≡ m
  unfolding keep_last
  keep_last_all n [] h = refl
  keep_last_all n (x ∷ m) h = ground arith

  pub Above-IsSorted : (k : ℤ) (m : List (ℤ × V)) → Above k m → IsSorted m
  Above-IsSorted k [] s = tt
  Above-IsSorted k ((j, v) ∷ m) s = s.1

  pub keep_last-IsSorted : (n : ℕ) (m : List (ℤ × V)) → IsSorted m → IsSorted (keep_last n m)
  unfolding keep_last
  keep_last-IsSorted n [] s = tt
  keep_last-IsSorted n ((j, v) ∷ m) s = ground (arith, keep_last-IsSorted n m, Above-IsSorted j m s)

  pub keep_last-Values {κ} :
      (P : V → Type κ) (n : ℕ) (m : List (ℤ × V)) → Values P m → Values P (keep_last n m)
  unfolding keep_last
  keep_last-Values P n [] h = tt
  keep_last-Values P n (x ∷ m) h = ground (arith, keep_last-Values P n m h.1)

  pub insert-Values {κ} :
      (P : V → Type κ) (k : ℤ) (v : V) (m : List (ℤ × V))
      → P v
      → Values P m
      → Values P (insert k v m)
  unfolding insert
  insert-Values P k v [] p h = (p, tt)
  insert-Values P k v (x ∷ m) p h = ground (arith, insert-Values P k v m p h.1)

  -- The default stands for a missing key.
  abbrev pub Default {κ} : (V → Type κ) → Option V → Type κ
  Default P none = Unit
  Default P (some v) = P v

  pub lookup-Values {κ} :
      (P : V → Type κ) (k : ℤ) (m : List (ℤ × V)) → Values P m → Default P (lookup k m)
  unfolding lookup
  lookup-Values P k [] h = tt
  lookup-Values P k (x ∷ m) h = ground (arith, lookup-Values P k m h.1)

-- `ground` splits on numbers below the first universe only.
module _ {V : Type 0} where
  pub lookup-insert :
      (k j : ℤ) (v : V) (m : List (ℤ × V))
      → lookup j (insert k v m) ≡ (if eqb_ℤ k j then some v else lookup j m)
  unfolding lookup insert
  lookup-insert k j v [] = refl
  lookup-insert k j v ((i, w) ∷ m) = ground (arith, lookup-insert k j v m)
