-- ===== src/Prelude/Lists.antt =====
-- Lists measured and indexed by native numbers, under the library's names.
use Prim.Native.Nat.{ℕ, zero, suc, ◌+◌, ◌-◌, ◌≤◌, min}
use mathlib.Core.Path.{◌≡◌, refl, sym, ap, ◌∙◌}
use mathlib.Core.List.{List, [], ◌∷◌, ◌++◌}
use native.Mathlib.Omega.{arith}

module _ {ℓ} {A : Type ℓ} where
  abbrev pub length : List A → ℕ
  length [] = 0
  length (x ∷ xs) = suc (length xs)

  abbrev pub get_or : List A → ℕ → A → A
  get_or [] i d = d
  get_or (x ∷ xs) zero d = x
  get_or (x ∷ xs) (suc i) d = get_or xs i d

  -- A write out of bounds changes nothing.
  abbrev pub set : List A → ℕ → A → List A
  set [] i v = []
  set (x ∷ xs) zero v = v ∷ xs
  set (x ∷ xs) (suc i) v = x ∷ set xs i v

  abbrev pub take : ℕ → List A → List A
  take zero xs = []
  take (suc n) [] = []
  take (suc n) (x ∷ xs) = x ∷ take n xs

  abbrev pub drop : ℕ → List A → List A
  drop zero xs = xs
  drop (suc n) [] = []
  drop (suc n) (x ∷ xs) = drop n xs

  abbrev pub replicate : ℕ → A → List A
  replicate zero a = []
  replicate (suc n) a = a ∷ replicate n a

  -- A predicate on every item, as a tuple.
  abbrev pub All {κ} : (A → Type κ) → List A → Type κ
  All P [] = Unit
  All P (x ∷ xs) = P x × All P xs

suc_sum : (a b : ℕ) → suc (a + b) ≡ suc a + b
suc_sum a b = omega arith

module _ {ℓ} {A : Type ℓ} where
  pub length-append : (xs ys : List A) → length (xs ++ ys) ≡ length xs + length ys
  length-append [] ys = omega arith
  length-append (x ∷ xs) ys = omega (arith, length-append xs ys)

  drop_nil : (n : ℕ) → drop {A = A} n [] ≡ []
  drop_nil zero = refl
  drop_nil (suc n) = refl

  pub take_nil : (n : ℕ) → take {A = A} n [] ≡ []
  take_nil zero = refl
  take_nil (suc n) = refl

  pub drop_all : (n : ℕ) (xs : List A) → length xs ≤ n → drop n xs ≡ []
  drop_all zero [] h = refl
  drop_all zero (x ∷ xs) h = absurd (omega (arith, h))
  drop_all (suc n) [] h = refl
  drop_all (suc n) (x ∷ xs) h = drop_all n xs (omega (arith, h))

  pub length-drop : (n : ℕ) (xs : List A) → length (drop n xs) ≡ length xs - n
  length-drop zero xs = omega arith
  length-drop (suc n) [] = omega arith
  length-drop (suc n) (x ∷ xs) = omega (arith, length-drop n xs)

  pub drop-drop : (a b : ℕ) (xs : List A) → drop b (drop a xs) ≡ drop (a + b) xs
  drop-drop zero b xs = let e : b ≡ 0 + b = omega arith in ap (λ n. drop n xs) e
  drop-drop (suc a) b [] = drop_nil b ∙ sym (drop_nil (suc a + b))
  drop-drop (suc a) b (x ∷ xs) = drop-drop a b xs ∙ ap (λ n. drop n (x ∷ xs)) (suc_sum a b)

  pub take_sum : (a b : ℕ) (xs : List A) → take (a + b) xs ≡ take a xs ++ take b (drop a xs)
  take_sum zero b xs = let e : 0 + b ≡ b = omega arith in ap (λ n. take n xs) e
  take_sum (suc a) b [] = take_nil (suc a + b) ∙ sym (take_nil b)
  take_sum (suc a) b (x ∷ xs) =
      sym (ap (λ n. take n (x ∷ xs)) (suc_sum a b)) ∙ ap (◌∷◌ x) (take_sum a b xs)

  -- Taking no more than there is.
  pub take_up_to : (n : ℕ) (xs : List A) → take (min n (length xs)) xs ≡ take n xs
  take_up_to zero xs = let e : min 0 (length xs) ≡ 0 = omega arith in ap (λ k. take k xs) e
  take_up_to (suc n) [] = let e : min (suc n) 0 ≡ 0 = omega arith in ap (λ k. take k []) e
  take_up_to (suc n) (x ∷ xs) =
      let e : min (suc n) (suc (length xs)) ≡ suc (min n (length xs)) = omega arith in
      ap (λ k. take k (x ∷ xs)) e ∙ ap (◌∷◌ x) (take_up_to n xs)

  pub length-set : (xs : List A) (i : ℕ) (v : A) → length (set xs i v) ≡ length xs
  length-set [] i v = refl
  length-set (x ∷ xs) zero v = refl
  length-set (x ∷ xs) (suc i) v = ap suc (length-set xs i v)

  pub All-append {κ} : (P : A → Type κ) (xs ys : List A) → All P xs → All P ys → All P (xs ++ ys)
  All-append P [] ys h k = k
  All-append P (x ∷ xs) ys h k = (h.0, All-append P xs ys h.1 k)
