-- ===== src/Domain/Activity/Aggregate.antt =====
-- The aggregate of the threads' states against the greatest element of a list, by attention.
use mathlib.Core.List.{Mem, mem-cons_self, mem-cons_of_mem, Permᴰ}
use mathlib.Core.Logic.{∥∥₁_elim}
use codex_quota_glance.Prelude.{
  ap, All, ℕ, ◌≤◌, ◌≡◌, refl, ◌⊎◌, inl, inr, List, [], ◌∷◌, ◌++◌, Perm, arith, sym, ◌∙◌, ap₂,
}
use codex_quota_glance.Domain.Activity.{
  ActivityState, unknown, priority, aggregate, max_from, later_max,
}

pub priority-injective : (a b : ActivityState) → priority a ≡ priority b → a ≡ b
unfolding priority
priority-injective a b h = ground arith

-- The start of the fold, then the fold as one join of states.
join : ActivityState → ActivityState → ActivityState
unfolding priority
join a b = later_max priority a b

join_comm : (a b : ActivityState) → join a b ≡ join b a
unfolding join
join_comm a b = ground (arith, priority-injective a b)

join_assoc : (a b c : ActivityState) → join (join a b) c ≡ join a (join b c)
unfolding join
join_assoc a b c = ground arith

join_all : List ActivityState → ActivityState
join_all [] = unknown
join_all (x ∷ xs) = join x (join_all xs)

join-unknown : (a : ActivityState) → join a unknown ≡ a
unfolding join
join-unknown a = ground arith

max_from-join_all :
    (a : ActivityState) (xs : List ActivityState) → max_from priority a xs ≡ join a (join_all xs)
unfolding max_from join_all join
max_from-join_all a [] = sym (join-unknown a)
max_from-join_all a (x ∷ xs) =
    (max_from-join_all (later_max priority a x) xs ∙ join_assoc a x (join_all xs))

aggregate-join_all : (xs : List ActivityState) → aggregate xs ≡ join_all xs
unfolding aggregate join_all
aggregate-join_all [] = refl
aggregate-join_all (x ∷ xs) = max_from-join_all x xs

join_left : (a b : ActivityState) → priority a ≤ priority (join a b)
unfolding join
join_left a b = ground arith

join_right : (a b : ActivityState) → priority b ≤ priority (join a b)
unfolding join
join_right a b = ground arith

join_choice : (a b : ActivityState) → (join a b ≡ a) ⊎ (join a b ≡ b)
unfolding join
join_choice a b = ground arith

All-le-join_all :
    (n : ℕ) (xs : List ActivityState) → priority (join_all xs) ≤ n → All (λ s. priority s ≤ n) xs
unfolding join_all
All-le-join_all n [] h = tt
All-le-join_all n (x ∷ xs) h = (
  omega (arith, join_left x (join_all xs)),
  All-le-join_all n xs (omega (arith, join_right x (join_all xs))),
)

mem-join_all : (x : ActivityState) (xs : List ActivityState) → Mem (join_all (x ∷ xs)) (x ∷ xs)
unfolding join_all
mem-join_all x [] = rw (join-unknown x) mem-cons_self
mem-join_all x (y ∷ ys) = elim (join_choice x (join_all (y ∷ ys))) [
  | inl e ↦ rw e mem-cons_self
  | inr e ↦ rw e (mem-cons_of_mem x (mem-join_all y ys))
]

join_all-perm : {xs ys : List ActivityState} → Permᴰ xs ys → join_all xs ≡ join_all ys
unfolding join_all
join_all-perm Permᴰ.nil = refl
join_all-perm (Permᴰ.cons e p) = ap₂ join e (join_all-perm p)
join_all-perm (Permᴰ.swap {a = a} {b = b} {l = l} e f) =
    cc (join_assoc a b (join_all l), join_assoc b a (join_all l), join_comm a b, f, e)
join_all-perm (Permᴰ.trans p q) = join_all-perm p ∙ join_all-perm q

join_all-append :
    (xs ys : List ActivityState) → join_all (xs ++ ys) ≡ join (join_all xs) (join_all ys)
unfolding join_all
join_all-append [] ys = sym (join_comm unknown (join_all ys) ∙ join-unknown (join_all ys))
join_all-append (x ∷ xs) ys = rw (join_all-append xs ys) (sym (join_assoc x (join_all xs) _))

aggregate-pair : (a b : ActivityState) → aggregate (a ∷ b ∷ []) ≡ join a b
unfolding aggregate join
aggregate-pair a b = refl

ActivityState-set : IsSet ActivityState
ActivityState-set = hlevel

-- The aggregate of some threads is one of their states, and no thread's state asks for more
-- attention than it; with no thread it is `unknown`.
aggregate_greatest :
    (states : List ActivityState)
    → All (λ s. priority s ≤ priority (aggregate states)) states
      × ((states ≡ [] × (aggregate states ≡ unknown)) ⊎ Mem (aggregate states) states)
aggregate_greatest [] = (tt, inl (refl, unfold aggregate in refl))
aggregate_greatest (x ∷ xs) = (
  All-le-join_all (priority (aggregate (x ∷ xs))) (x ∷ xs)
      (omega (arith, ap priority (aggregate-join_all (x ∷ xs)))),
  inr (rw (aggregate-join_all (x ∷ xs)) (mem-join_all x xs)),
)

pub aggregate-perm : (xs ys : List ActivityState) → Perm xs ys → aggregate xs ≡ aggregate ys
aggregate-perm xs ys p = cc (
  aggregate-join_all xs,
  ∥∥₁_elim p (ActivityState-set (join_all xs) (join_all ys)) join_all-perm,
  aggregate-join_all ys,
)

-- Neither the order in which the threads are listed nor a grouping of them changes the aggregate:
-- the aggregate of two parts' aggregates is that of the whole.
aggregate_regroup :
    (xs ys states : List ActivityState)
    → Perm states (xs ++ ys)
    → aggregate states ≡ aggregate (aggregate xs ∷ aggregate ys ∷ [])
aggregate_regroup xs ys states p = cc (
  aggregate-perm states (xs ++ ys) p,
  aggregate-join_all (xs ++ ys),
  join_all-append xs ys,
  aggregate-join_all xs,
  aggregate-join_all ys,
  aggregate-pair (aggregate xs) (aggregate ys),
)
