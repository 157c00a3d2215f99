-- ===== src/AppServer/Identifier.antt =====
-- crates/adapters-codex-app-server/src/state.rs: the masked account identifier. A string is the
-- list of its characters, each by its code point.
pub mod Privacy
mod Tests
use codex_quota_glance.Prelude.Bytes.{split_once}
use codex_quota_glance.Prelude.{
  ℕ, ◌==◌, if◌then◌else◌, List, [], ◌∷◌, ◌++◌, take, Option, none, some, option_map,
}

abbrev pub at_sign : ℕ
at_sign = 64

abbrev pub asterisk : ℕ
asterisk = 42

or_if_empty : List ℕ → List ℕ → List ℕ
or_if_empty [] other = other
or_if_empty (x ∷ xs) other = x ∷ xs

abbrev pub stars : List ℕ
stars = asterisk ∷ asterisk ∷ asterisk ∷ []

masked_local : List ℕ → List ℕ
masked_local [] = stars
masked_local (x ∷ xs) = (x ∷ xs) ++ stars

masked : List ℕ → Option (List ℕ × List ℕ) → List ℕ
unfolding or_if_empty masked_local
masked value none = masked_local (take 2 value)
masked value (some (local, domain)) =
    or_if_empty (take 2 local) (asterisk ∷ []) ++ (stars ++ (at_sign ∷ domain))

pub mask_identifier : List ℕ → List ℕ
unfolding masked
mask_identifier value = masked value (split_once at_sign value)
