-- ===== src/AppServer/Json/Trees.antt =====
-- A concrete type of decoded JSON, for tests: the laws of the interface hold of it.
use text.Mathlib.Text.{◌==◌ as str_eq}
use text.Mathlib.TextEquality.{eq_iff}
use codex_quota_glance.Prelude.{
  ℕ, suc, ◌<◌, List, [], ◌∷◌, All, sym, subst, ◌≤◌, ◌≡◌, refl, max, min, Option, none, some, Bool,
  true, false, if◌then◌else◌, leb, ◌^◌, ◌-◌, arith, String,
}
use codex_quota_glance.Prelude.Int.{ℤ, pos}
use codex_quota_glance.Prelude.Words.{u64_max}
use codex_quota_glance.AppServer.Json.{Json, Laws, DeeperThan}

mutual
  -- An object is a list of members.
  pub data Tree : Type 0 where
    null : Tree
    flag : Bool → Tree
    number : ℕ → Tree
    string : String → Tree
    array : Items → Tree
    object : Members → Tree

  pub data Items : Type 0 where
    no_items : Items
    item : Tree → Items → Items

  pub data Members : Type 0 where
    nothing : Members
    member : String → Tree → Members → Members

unfoldable mutual
  pub height : Tree → ℕ
  height (object ms) = suc (heights ms)
  height _ = 0

  pub heights : Members → ℕ
  heights nothing = 0
  heights (member k t ms) = max (height t) (heights ms)

list_of : Items → List Tree
list_of no_items = []
list_of (item t ts) = t ∷ list_of ts

as_array_tree : Tree → Option (List Tree)
unfolding list_of
as_array_tree (array ts) = some (list_of ts)
as_array_tree _ = none

pairs : Members → List (String × Tree)
pairs nothing = []
pairs (member k t ms) = (k, t) ∷ pairs ms

members_tree : Tree → List (String × Tree)
unfolding pairs
members_tree (object ms) = pairs ms
members_tree _ = []

put : String → Tree → Members → Members
put k t nothing = member k t nothing
put k t (member l u ms) = if str_eq l k then member k t ms else member l u (put k t ms)

insert_tree : String → Tree → Tree → Tree
unfolding put
insert_tree k t (object ms) = object (put k t ms)
insert_tree k t v = v

unfoldable pub find_member : String → Members → Option Tree
find_member k nothing = none
find_member k (member l t ms) = if str_eq l k then some t else find_member k ms

unfoldable pub get_member : String → Tree → Option Tree
unfolding find_member
get_member k (object ms) = find_member k ms
get_member k _ = none

unfoldable pub is_object_tree : Tree → Bool
is_object_tree (object ms) = true
is_object_tree _ = false

unfoldable pub is_null_tree : Tree → Bool
is_null_tree null = true
is_null_tree _ = false

unfoldable pub as_u64_tree : Tree → Option ℕ
as_u64_tree (number n) = some (min n u64_max)
as_u64_tree _ = none

as_bool_tree : Tree → Option Bool
as_bool_tree (flag b) = some b
as_bool_tree _ = none

as_str_tree : Tree → Option String
as_str_tree (string s) = some s
as_str_tree _ = none

unfoldable pub as_i64_tree : Tree → Option ℤ
as_i64_tree (number n) = if leb n (2 ^ 63 - 1) then some (pos n) else none
as_i64_tree _ = none

unfoldable pub trees : Json Tree
unfolding get_member is_object_tree is_null_tree as_bool_tree as_str_tree as_u64_tree as_i64_tree
    as_array_tree members_tree insert_tree height
trees = record {
  get = get_member;
  is_object = is_object_tree;
  is_null = is_null_tree;
  as_bool = as_bool_tree;
  as_str = as_str_tree;
  as_u64 = as_u64_tree;
  as_i64 = as_i64_tree;
  null_value = null;
  empty_object = object nothing;
  as_array = as_array_tree;
  members = members_tree;
  insert = insert_tree;
  depth = height;
}

heights-cons :
    (l : String) (t : Tree) (ms : Members)
    → (height t ≤ heights (member l t ms)) × (heights ms ≤ heights (member l t ms))
unfolding height
heights-cons l t ms = (omega arith, omega arith)

find_member-depth :
    (k : String) (ms : Members) (child : Tree)
    → find_member k ms ≡ some child
    → height child ≤ heights ms
unfolding find_member
find_member-depth k nothing child h = ground arith
find_member-depth k (member l t ms) child h =
    ground (arith, heights-cons l t ms, find_member-depth k ms child)

object-height : (ms : Members) → height (object ms) ≡ suc (heights ms)
unfolding height
object-height ms = refl

member-DeeperThan :
    (k : String) (ms : Members) (o : Option Tree)
    → find_member k ms ≡ o
    → DeeperThan trees o (object ms)
unfolding trees
member-DeeperThan k ms none h = tt
member-DeeperThan k ms (some child) h =
    omega (arith, find_member-depth k ms child h, object-height ms)

get_member-DeeperThan : (k : String) (t : Tree) → DeeperThan trees (get_member k t) t
unfolding get_member
get_member-DeeperThan k null = tt
get_member-DeeperThan k (flag b) = tt
get_member-DeeperThan k (number n) = tt
get_member-DeeperThan k (string s) = tt
get_member-DeeperThan k (array ts) = tt
get_member-DeeperThan k (object ms) = member-DeeperThan k ms (find_member k ms) refl

pairs-depth :
    (ms ns : Members)
    → heights ms ≤ heights ns
    → All (λ m. height m.1 < suc (heights ns)) (pairs ms)
unfolding pairs
pairs-depth nothing ns h = tt
pairs-depth (member k t ms) ns h =
    (omega (arith, heights-cons k t ms), pairs-depth ms ns (omega (arith, heights-cons k t ms)))

members-depth : (t : Tree) → All (λ m. height m.1 < height t) (members_tree t)
unfolding members_tree
members-depth null = tt
members-depth (flag b) = tt
members-depth (number n) = tt
members-depth (string s) = tt
members-depth (array ts) = tt
members-depth (object ms) =
    subst (λ n. All (λ m. height m.1 < n) (pairs ms)) (sym (object-height ms))
      (pairs-depth ms ms (omega arith))

find_member-put :
    (k l : String) (t : Tree) (ms : Members)
    → find_member l (put k t ms) ≡ (if str_eq k l then some t else find_member l ms)
unfolding find_member put
find_member-put k l t nothing = refl
find_member-put k l t (member i u ms) =
    ground (arith, eq_iff k l, eq_iff i k, eq_iff i l, find_member-put k l t ms)

insert-get :
    (k l : String) (w v : Tree)
    → is_object_tree v ≡ true
    → get_member l (insert_tree k w v) ≡ (if str_eq k l then some w else get_member l v)
unfolding get_member insert_tree is_object_tree
insert-get k l w (object ms) h = find_member-put k l w ms
insert-get k l w _ h = cc

insert-object :
    (k : String) (w v : Tree) → is_object_tree v ≡ true → is_object_tree (insert_tree k w v) ≡ true
unfolding is_object_tree insert_tree
insert-object k w (object ms) h = refl
insert-object k w _ h = h

pub trees-Laws : Laws trees
unfolding trees get_member is_object_tree is_null_tree as_u64_tree members_tree insert_tree
trees-Laws = record {
  get_depth = get_member-DeeperThan;
  get_object = λ k v h. ground arith;
  null_object = λ v h. ground arith;
  members_depth = members-depth;
  insert_get = insert-get;
  insert_object = insert-object;
  u64_fits = λ v. ground arith;
}
