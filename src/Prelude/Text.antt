-- ===== src/Prelude/Text.antt =====
-- Text. Whole texts are native strings; where the source looks at characters, they are the list of
-- their code points.
use Prim.Native.Char.{Char, code}
use Prim.Native.Nat.{ℕ, ◌+◌}
use Prim.Native.String.{String}
use mathlib.Core.Path.{◌≡◌, refl}
use mathlib.Core.Logic.{inl, inr}
use mathlib.Core.Bool.{Bool, true, false, ◌&&◌, ◌||◌}
use mathlib.Core.List.{List, [], ◌∷◌, map}
use native.Mathlib.Omega.{arith}
use codex_quota_glance.Prelude.Tests.{leb, ◌==◌, if◌then◌else◌, Bool-cases}

abbrev pub codes : String → List ℕ
codes String.[] = []
codes (String.◌∷◌ c s) = code c ∷ codes s

-- `char::is_whitespace`, the characters with the Unicode property White_Space.
unfoldable pub is_whitespace : ℕ → Bool
is_whitespace c =
    leb 9 c && leb c 13
    || (c == 32
        || (c == 133
            || (c == 160
                || (c == 5760
                    || (leb 8192 c && leb c 8202
                        || (c == 8232
                            || (c == 8233 || (c == 8239 || (c == 8287 || c == 12288)))))))))

abbrev pub is_empty : String → Bool
is_empty String.[] = true
is_empty (String.◌∷◌ c s) = false

-- `str::trim_start`, `str::trim_end` and `str::trim`.
unfoldable pub trim_start : String → String
trim_start String.[] = String.[]
trim_start (String.◌∷◌ c s) =
    let rest = trim_start s in if is_whitespace (code c) then rest else String.◌∷◌ c s

unfoldable pub trim_end : String → String
trim_end String.[] = String.[]
trim_end (String.◌∷◌ c s) =
    let rest = trim_end s in
    if is_whitespace (code c) && is_empty rest then String.[] else String.◌∷◌ c rest

unfoldable pub trim : String → String
unfolding trim_start trim_end
trim s = trim_end (trim_start s)

-- `to_ascii_lowercase`, character by character.
unfoldable pub lower_code : ℕ → ℕ
lower_code c = if leb b'A' c && leb c b'Z' then c + 32 else c

unfoldable pub lower : String → List ℕ
unfolding lower_code
lower s = map lower_code (codes s)

unfoldable pub same_codes : List ℕ → List ℕ → Bool
same_codes [] [] = true
same_codes (a ∷ xs) (b ∷ ys) = a == b && same_codes xs ys
same_codes _ _ = false

pub same_codes-eq : (xs ys : List ℕ) → same_codes xs ys ≡ true → xs ≡ ys
unfolding same_codes
same_codes-eq [] [] h = refl
same_codes-eq [] (b ∷ bs) h = cc
same_codes-eq (a ∷ cs) [] h = cc
same_codes-eq (a ∷ cs) (b ∷ bs) h = ground (arith, same_codes-eq cs bs)

-- `str::eq_ignore_ascii_case`.
unfoldable pub eq_ignore_ascii_case : String → String → Bool
unfolding lower same_codes
eq_ignore_ascii_case s t = same_codes (lower s) (lower t)

-- The first character is white space.
leads : String → Bool
leads String.[] = false
leads (String.◌∷◌ c s) = is_whitespace (code c)

leads-trim_start : (s : String) → leads (trim_start s) ≡ false
unfolding leads trim_start
leads-trim_start String.[] = refl
leads-trim_start (String.◌∷◌ c s) = ground (arith, leads-trim_start s)

trim_start_still : (s : String) → leads s ≡ false → trim_start s ≡ s
unfolding leads trim_start
trim_start_still String.[] h = refl
trim_start_still (String.◌∷◌ c s) h = rw h refl

leads-trim_end : (s : String) → leads s ≡ false → leads (trim_end s) ≡ false
unfolding leads trim_end
leads-trim_end String.[] h = refl
leads-trim_end (String.◌∷◌ c s) h = ground arith

trim_end-cons :
    (c : Char) (s : String)
    → (is_whitespace (code c) && is_empty s) ≡ false
    → trim_end s ≡ s
    → trim_end (String.◌∷◌ c s) ≡ String.◌∷◌ c s
unfolding trim_end
trim_end-cons c s h e = rw (e, h) refl

trim_end_idem : (s : String) → trim_end (trim_end s) ≡ trim_end s
unfolding trim_end
trim_end_idem String.[] = refl
trim_end_idem (String.◌∷◌ c s) =
    elim (Bool-cases (is_whitespace (code c) && is_empty (trim_end s))) [
      | inl e ↦ rw e refl
      | inr e ↦ rw e (trim_end-cons c (trim_end s) e (trim_end_idem s))
    ]

-- Trimming twice is trimming once.
pub trim_idem : (s : String) → trim (trim s) ≡ trim s
unfolding trim
trim_idem s =
    let start = trim_start s in
    rw (trim_start_still (trim_end start) (leads-trim_end start (leads-trim_start s)))
      (trim_end_idem start)

-- `str::starts_with`, `str::contains` and `str::ends_with`.
unfoldable pub starts_with : List ℕ → List ℕ → Bool
starts_with text [] = true
starts_with [] (c ∷ prefix) = false
starts_with (a ∷ text) (c ∷ prefix) = a == c && starts_with text prefix

unfoldable pub contains : List ℕ → List ℕ → Bool
unfolding starts_with
contains [] part = starts_with [] part
contains (a ∷ text) part =
    let rest = contains text part in if starts_with (a ∷ text) part then true else rest

unfoldable pub ends_with : List ℕ → List ℕ → Bool
unfolding same_codes
ends_with [] part = same_codes [] part
ends_with (a ∷ text) part =
    let rest = ends_with text part in if same_codes (a ∷ text) part then true else rest
