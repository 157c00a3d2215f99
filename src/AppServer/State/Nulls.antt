-- ===== src/AppServer/State/Nulls.antt =====
-- A null in a patch is no tombstone.
use text.Mathlib.Text.{◌==◌ as str_eq}
use codex_quota_glance.Prelude.{
  ℕ, zero, suc, ◌≤◌, ◌<◌, ◌≡◌, refl, ◌∙◌, List, [], ◌∷◌, Option, none, some, true, false, String,
  All, arith, ◌⊎◌,
}
use codex_quota_glance.AppServer.Json.{Json, Laws}
use codex_quota_glance.AppServer.State.{merge_value, merge_members, merge_object, merge_whole}

module _ {V : Type 0} ⦃j : Json V⦄ (laws : Laws j) where
  -- A member of a patch that does not speak of the key.
  abbrev pub Silent : String → String × V → Type 0
  Silent key member = (str_eq member.0 key ≡ false) ⊎ (j.is_null member.1 ≡ true)

  merge_value-object :
      (rec : V → V → V) (existing : V) (key : String) (value : V) (old : Option V)
      → j.is_object existing ≡ true
      → j.is_object (merge_value rec existing key value old) ≡ true
  unfolding merge_value
  merge_value-object rec existing key value none o =
      ground (arith, laws.insert_object key value existing)
  merge_value-object rec existing key value (some old) o = ground (
    arith,
    laws.insert_object key value existing,
    laws.insert_object key (rec old value) existing,
  )

  merge_value-Silent :
      (rec : V → V → V) (existing : V) (key k : String) (value : V) (old : Option V)
      → j.is_object existing ≡ true
      → Silent key (k, value)
      → j.get key (merge_value rec existing k value old) ≡ j.get key existing
  unfolding merge_value
  merge_value-Silent rec existing key k value none o s =
      ground (arith, laws.insert_get k key value existing)
  merge_value-Silent rec existing key k value (some old) o s =
      ground (
        arith,
        laws.insert_get k key value existing,
        laws.insert_get k key (rec old value) existing,
      )

  merge_members-Silent :
      (rec : V → V → V) (existing : V) (key : String) (members : List (String × V))
      → j.is_object existing ≡ true
      → All (Silent key) members
      → j.get key (merge_members rec existing members) ≡ j.get key existing
  unfolding merge_members
  merge_members-Silent rec existing key [] o s = refl
  merge_members-Silent rec existing key ((k, value) ∷ members) o s =
      merge_members-Silent rec (merge_value rec existing k value (j.get k existing)) key members
        (merge_value-object rec existing k value (j.get k existing) o) s.1
      ∙ merge_value-Silent rec existing key k value (j.get k existing) o s.0

  -- Merging a patch keeps what stands under a key that the patch does not name, or names with null.
  pub merge_object-Silent :
      (existing update : V) (key : String)
      → j.is_object existing ≡ true
      → All (Silent key) (j.members update)
      → j.get key (merge_whole existing update) ≡ j.get key existing
  unfolding merge_object
  merge_object-Silent existing update key o s =
      merge_members-Silent (merge_object (j.depth update)) existing key (j.members update) o s

  merge_value-agree :
      (r t : V → V → V) (existing : V) (key : String) (value : V) (o : Option V)
      → ((old : V) → r old value ≡ t old value)
      → merge_value r existing key value o ≡ merge_value t existing key value o
  unfolding merge_value
  merge_value-agree r t existing key value none h = refl
  merge_value-agree r t existing key value (some old) h = rw (h old) refl

  -- Two ways to merge that agree on the members of a patch merge the patch alike.
  merge_members-agree :
      (r t : V → V → V) (existing : V) (members : List (String × V))
      → All (λ m. (old : V) → r old m.1 ≡ t old m.1) members
      → merge_members r existing members ≡ merge_members t existing members
  unfolding merge_members
  merge_members-agree r t existing [] h = refl
  merge_members-agree r t existing ((k, value) ∷ members) h =
      rw (merge_value-agree r t existing k value (j.get k existing) h.0)
        (merge_members-agree r t (merge_value t existing k value (j.get k existing)) members h.1)

  merge_object-members :
      (n m top : ℕ) (members : List (String × V))
      → top ≤ n
      → top ≤ m
      → ((e u : V) → j.depth u < n → j.depth u < m → merge_object n e u ≡ merge_object m e u)
      → All (λ x. j.depth x.1 < top) members
      → All (λ x. (old : V) → merge_object n old x.1 ≡ merge_object m old x.1) members
  merge_object-members n m top [] p q h d = tt
  merge_object-members n m top (x ∷ members) p q h d =
      (λ old. h old x.1 (omega arith) (omega arith), merge_object-members n m top members p q h d.1)

  -- Merging never runs out of fuel: any two amounts above the depth of the patch merge alike.
  merge_object-fuel :
      (n m : ℕ) (existing update : V)
      → j.depth update < n
      → j.depth update < m
      → merge_object n existing update ≡ merge_object m existing update
  unfolding merge_object
  merge_object-fuel zero m existing update p q = ground arith
  merge_object-fuel (suc n) zero existing update p q = ground arith
  merge_object-fuel (suc n) (suc m) existing update p q =
      merge_members-agree (merge_object n) (merge_object m) existing (j.members update) (
        merge_object-members n m (j.depth update) (j.members update) (omega arith) (omega arith)
          (λ e u. merge_object-fuel n m e u) (laws.members_depth update))
