-- ===== src/AppServer/Json.antt =====
-- The decoded JSON of serde_json, which the source only calls, as an interface: the accessors of
-- `Value` that the adapter uses. A `Map` is a value that is an object;
-- `members` is its iteration, `insert` its `insert`.
pub mod Trees
use text.Mathlib.Text.{◌==◌ as str_eq}
use codex_quota_glance.Prelude.{
  All, ℕ, zero, suc, ◌≤◌, ◌<◌, ◌≡◌, List, [], ◌∷◌, Option, none, some, Bool, true, false, is_some,
  or_else, if◌then◌else◌, leb, ◌>>=◌, String, ◌^◌, ◌-◌, option_map,
}
use codex_quota_glance.Prelude.Int.{ℤ, pos}
use codex_quota_glance.Prelude.Words.{u32_max, u64_max}

-- `V` is the type of values. `get` is `Value::get` at a key, which gives nothing outside an object;
-- `depth` is how deep objects lie in one another, and no function of the source.
pub record Json (V : Type 0) : Type 0 where
  pub get : String → V → Option V
  pub is_object : V → Bool
  pub is_null : V → Bool
  pub as_bool : V → Option Bool
  pub as_str : V → Option String
  pub as_u64 : V → Option ℕ
  pub as_i64 : V → Option ℤ
  pub null_value : V
  pub empty_object : V
  pub as_array : V → Option (List V)
  pub members : V → List (String × V)
  pub insert : String → V → V → V
  pub depth : V → ℕ

-- Documented behaviour of serde_json: a value is a finite tree, a null is no object, only an
-- object has members, `as_u64` gives a `u64`, and `get` after `insert` gives what was inserted.
abbrev pub DeeperThan : {V : Type 0} → Json V → Option V → V → Type 0
DeeperThan j none v = Unit {0}
DeeperThan j (some child) v = j.depth child < j.depth v

abbrev pub AtMost : Option ℕ → ℕ → Type 0
AtMost none top = Unit {0}
AtMost (some n) top = n ≤ top

pub record Laws {V : Type 0} (j : Json V) : Type 0 where
  pub get_depth : (k : String) (v : V) → DeeperThan j (j.get k v) v
  pub get_object : (k : String) (v : V) → j.is_object v ≡ false → j.get k v ≡ none
  pub null_object : (v : V) → j.is_null v ≡ true → j.is_object v ≡ false
  pub members_depth : (v : V) → All (λ m. j.depth m.1 < j.depth v) (j.members v)
  pub insert_get :
      (k l : String) (w v : V)
      → j.is_object v ≡ true
      → j.get l (j.insert k w v) ≡ (if str_eq k l then some w else j.get l v)
  pub insert_object :
      (k : String) (w v : V) → j.is_object v ≡ true → j.is_object (j.insert k w v) ≡ true
  pub u64_fits : (v : V) → AtMost (j.as_u64 v) u64_max

i64_of : ℕ → Option ℤ
i64_of n = if leb n (2 ^ 63 - 1) then some (pos n) else none

module _ {V : Type 0} ⦃j : Json V⦄ where
  abbrev pub contains_key : String → V → Bool
  contains_key k v = is_some (j.get k v)

  -- `get(a).or_else(|| get(b)).or_else(…)`.
  unfoldable pub get_first : List String → V → Option V
  get_first [] v = none
  get_first (k ∷ ks) v = or_else (j.get k v) (get_first ks v)

  -- `number_u32` and `number_i64`.
  unfoldable pub number_u32 : V → Option ℕ
  number_u32 v = j.as_u64 v >>= λ n. if leb n u32_max then some n else none

  unfoldable pub number_i64 : V → Option ℤ
  unfolding i64_of
  number_i64 v = or_else (j.as_i64 v) (j.as_u64 v >>= i64_of)

  -- `find_value`: the keys, and then the wrappers, on fuel.
  unfoldable pub find_value : ℕ → V → List String → Option V
  find_value zero v keys = none
  find_value (suc fuel) v keys = or_else (get_first keys v) (
      or_else (j.get "result" v >>= λ child. find_value fuel child keys)
        (j.get "params" v >>= λ child. find_value fuel child keys))
