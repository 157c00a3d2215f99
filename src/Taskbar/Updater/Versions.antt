-- ===== src/Taskbar/Updater/Versions.antt =====
-- apps/codex-taskbar/src/updater.rs: which version is newer.
use codex_quota_glance.Prelude.{
  ℕ, ◌≡◌, refl, ltb, ◌==◌, if◌then◌else◌, List, [], ◌∷◌, Option, none, some, Bool, true, false, not,
  ◌||◌, is_some, option_map, arith, ◌>>=◌, ◌<◌, ◌++◌, ◌⊎◌, inl, inr, ap, subst, sym, ◌∙◌,
}
use codex_quota_glance.Prelude.Text.{same_codes}
use codex_quota_glance.Prelude.Bytes.{pieces}
use codex_quota_glance.AppServer.State.Dates.{parse_u64}

-- The part up to a dash or a plus sign.
before_suffix : List ℕ → List ℕ
before_suffix [] = []
before_suffix (c ∷ cs) =
    let rest = before_suffix cs in if c == b'-' || c == b'+' then [] else c ∷ rest

-- `collect` into an `Option`.
numbers : List (List ℕ) → Option (List ℕ)
unfolding before_suffix
numbers [] = some []
numbers (p ∷ ps) = parse_u64 (before_suffix p) >>= λ n. option_map (λ ns. n ∷ ns) (numbers ps)

unfoldable pub version_parts : List ℕ → Option (List ℕ)
unfolding numbers
version_parts value = let p = pieces b'.' value in numbers (p.0 ∷ p.1)

-- One list of numbers stands above another: where they first differ it has the larger number, or it
-- goes on after the whole of the other.
abbrev pub Above : (xs ys : List ℕ) → Type 0
Above xs ys =
    ((p : List ℕ) × ((x : ℕ) × ((y : ℕ) × ((us : List ℕ) × ((vs : List ℕ) × ((xs ≡ p ++ (x ∷ us))
                × ((ys ≡ p ++ (y ∷ vs)) × (y < x))))))))
    ⊎ ((x : ℕ) × ((us : List ℕ) × (xs ≡ ys ++ (x ∷ us))))

-- `>` of two vectors.
is_greater : List ℕ → List ℕ → Bool
is_greater [] ys = false
is_greater (x ∷ xs) [] = true
is_greater (x ∷ xs) (y ∷ ys) =
    let rest = is_greater xs ys in if ltb y x then true else if ltb x y then false else rest

newer_of : List ℕ → List ℕ → Option (List ℕ) → Option (List ℕ) → Bool
unfolding is_greater
newer_of candidate current (some a) (some b) = is_greater a b
newer_of candidate current none b = not (same_codes candidate current)
newer_of candidate current (some a) none = not (same_codes candidate current)

unfoldable pub is_newer : (candidate current : List ℕ) → Bool
unfolding newer_of version_parts
is_newer candidate current =
    newer_of candidate current (version_parts candidate) (version_parts current)

Above-cons : (n : ℕ) (xs ys : List ℕ) → Above xs ys → Above (n ∷ xs) (n ∷ ys)
Above-cons n xs ys (inl (p, (x, (y, (us, (vs, (e, (f, l)))))))) =
    inl (n ∷ p, (x, (y, (us, (vs, (ap (λ t. n ∷ t) e, (ap (λ t. n ∷ t) f, l)))))))
Above-cons n xs ys (inr (x, (us, e))) = inr (x, (us, ap (λ t. n ∷ t) e))

is_greater-heads :
    (x y : ℕ) (xs ys : List ℕ)
    → is_greater (x ∷ xs) (y ∷ ys) ≡ true
    → (y < x) ⊎ ((x ≡ y) × (is_greater xs ys ≡ true))
unfolding is_greater
is_greater-heads x y xs ys h = ground arith

is_greater-Above : (xs ys : List ℕ) → is_greater xs ys ≡ true → Above xs ys
unfolding is_greater
is_greater-Above [] ys h = cc
is_greater-Above (x ∷ xs) [] h = inr (x, (xs, refl))
is_greater-Above (x ∷ xs) (y ∷ ys) h = elim (is_greater-heads x y xs ys h) [
  | inl l ↦ inl ([], (x, (y, (xs, (ys, (refl, (refl, l)))))))
  | inr (e, g) ↦
      subst (λ n. Above (x ∷ xs) (n ∷ ys)) e (Above-cons x xs ys (is_greater-Above xs ys g))
]

newer_of-Above :
    (candidate current a b : List ℕ)
    → newer_of candidate current (some a) (some b) ≡ true
    → Above a b
unfolding newer_of
newer_of-Above candidate current a b h = is_greater-Above a b h

-- Where both versions are numbers, the newer one is above the other.
pub is_newer-Above :
    (candidate current a b : List ℕ)
    → version_parts candidate ≡ some a
    → version_parts current ≡ some b
    → is_newer candidate current ≡ true
    → Above a b
unfolding is_newer
is_newer-Above candidate current a b e f h = newer_of-Above candidate current a b (
    ap (λ t. newer_of candidate current t (some b)) (sym e)
    ∙ ap (λ t. newer_of candidate current (version_parts candidate) t) (sym f)
    ∙ h)

greater_trans :
    (xs ys zs : List ℕ)
    → is_greater xs ys ≡ true
    → is_greater ys zs ≡ true
    → (is_greater xs zs ≡ true) × (is_greater zs xs ≡ false)
unfolding is_greater
greater_trans [] ys zs h k = cc
greater_trans (x ∷ xs) [] zs h k = cc
greater_trans (x ∷ xs) (y ∷ ys) [] h k = (refl, refl)
greater_trans (x ∷ xs) (y ∷ ys) (z ∷ zs) h k = ground (arith, greater_trans xs ys zs)

-- Every part of the version is a number.
abbrev IsVersion : List ℕ → Type 0
IsVersion v = is_some (version_parts v) ≡ true

newer_of_trans :
    (a b c : List ℕ) (p q r : Option (List ℕ))
    → is_some p ≡ true
    → is_some q ≡ true
    → is_some r ≡ true
    → newer_of a b p q ≡ true
    → newer_of b c q r ≡ true
    → (newer_of a c p r ≡ true) × (newer_of c a r p ≡ false)
unfolding newer_of
newer_of_trans a b c none q r x y z h k = cc
newer_of_trans a b c (some p) none r x y z h k = cc
newer_of_trans a b c (some p) (some q) none x y z h k = cc
newer_of_trans a b c (some p) (some q) (some r) x y z h k = greater_trans p q r h k

-- Among versions whose parts are numbers, newer than a newer one is newer, and no older one is
-- newer again, so that updates never lead back.
is_newer_trans :
    (a b c : List ℕ)
    → IsVersion a
    → IsVersion b
    → IsVersion c
    → is_newer a b ≡ true
    → is_newer b c ≡ true
    → (is_newer a c ≡ true) × (is_newer c a ≡ false)
unfolding is_newer
is_newer_trans a b c x y z h k =
    newer_of_trans a b c (version_parts a) (version_parts b) (version_parts c) x y z h k
