-- ===== src/Domain/Layout/Order.antt =====
-- The order of the visible items: by `order`, and among equals as the input has them.
use codex_quota_glance.Prelude.{
  ℕ, suc, ◌≤◌, ◌<◌, ◌≡◌, refl, ◌==◌, if◌then◌else◌, List, [], ◌∷◌, ◌&&◌, map, All, arith, ◌∙◌,
}
use codex_quota_glance.Domain.Layout.{
  DisplayItemConfig, Indexed, insert_sorted, sort_by_key, indexed_visible, ordered_visible_items,
}

-- The visible items of one order, as the input has them.
abbrev pub visible_with : ℕ → List DisplayItemConfig → List DisplayItemConfig
visible_with k [] = []
visible_with k (x ∷ xs) =
    if x.visible && x.order == k then x ∷ visible_with k xs else visible_with k xs

abbrev pub with_order : ℕ → List DisplayItemConfig → List DisplayItemConfig
with_order k [] = []
with_order k (x ∷ xs) = if x.order == k then x ∷ with_order k xs else with_order k xs

-- The orders never fall along the list.
abbrev pub RisesFrom : ℕ → List DisplayItemConfig → Type 0
RisesFrom k [] = Unit {0}
RisesFrom k (x ∷ xs) = (k ≤ x.order) × RisesFrom x.order xs

abbrev items_of : List Indexed → List DisplayItemConfig
items_of = map (λ p. p.1)

abbrev IndexAbove : ℕ → List Indexed → Type 0
IndexAbove i = All (λ p. i < p.0)

insert_sorted-RisesFrom :
    (k : ℕ) (x : Indexed) (ys : List Indexed)
    → k ≤ x.1.order
    → RisesFrom k (items_of ys)
    → RisesFrom k (items_of (insert_sorted x ys))
unfolding insert_sorted
insert_sorted-RisesFrom k x [] h r = (h, tt)
insert_sorted-RisesFrom k x (y ∷ ys) h r = ground (arith, insert_sorted-RisesFrom y.1.order x ys)

sort_by_key-RisesFrom : (xs : List Indexed) → RisesFrom 0 (items_of (sort_by_key xs))
unfolding sort_by_key
sort_by_key-RisesFrom [] = tt
sort_by_key-RisesFrom (x ∷ xs) =
    insert_sorted-RisesFrom 0 x (sort_by_key xs) (omega arith) (sort_by_key-RisesFrom xs)

insert_sorted-IndexAbove :
    (i : ℕ) (x : Indexed) (ys : List Indexed)
    → i < x.0
    → IndexAbove i ys
    → IndexAbove i (insert_sorted x ys)
unfolding insert_sorted
insert_sorted-IndexAbove i x [] h r = (h, tt)
insert_sorted-IndexAbove i x (y ∷ ys) h r = ground (arith, insert_sorted-IndexAbove i x ys)

sort_by_key-IndexAbove :
    (i : ℕ) (xs : List Indexed) → IndexAbove i xs → IndexAbove i (sort_by_key xs)
unfolding sort_by_key
sort_by_key-IndexAbove i [] r = tt
sort_by_key-IndexAbove i (x ∷ xs) r =
    insert_sorted-IndexAbove i x (sort_by_key xs) r.0 (sort_by_key-IndexAbove i xs r.1)

with_order-insert_sorted :
    (k : ℕ) (x : Indexed) (ys : List Indexed)
    → IndexAbove x.0 ys
    → with_order k (items_of (insert_sorted x ys)) ≡ with_order k (items_of (x ∷ ys))
unfolding insert_sorted
with_order-insert_sorted k x [] r = refl
with_order-insert_sorted k x (y ∷ ys) r = ground (arith, with_order-insert_sorted k x ys)

-- A list of indexed items whose indices rise.
abbrev IndexRises : List Indexed → Type 0
IndexRises [] = Unit {0}
IndexRises (x ∷ xs) = IndexAbove x.0 xs × IndexRises xs

with_order-sort_by_key :
    (k : ℕ) (xs : List Indexed)
    → IndexRises xs
    → with_order k (items_of (sort_by_key xs)) ≡ with_order k (items_of xs)
unfolding sort_by_key
with_order-sort_by_key k [] r = refl
with_order-sort_by_key k (x ∷ xs) r =
    with_order-insert_sorted k x (sort_by_key xs) (sort_by_key-IndexAbove x.0 xs r.0)
    ∙ ground (arith, with_order-sort_by_key k xs r.1)

indexed_visible-IndexAbove :
    (j i : ℕ) (xs : List DisplayItemConfig) → j < i → IndexAbove j (indexed_visible i xs)
unfolding indexed_visible
indexed_visible-IndexAbove j i [] h = tt
indexed_visible-IndexAbove j i (x ∷ xs) h = ground (arith, indexed_visible-IndexAbove j (suc i) xs)

indexed_visible-IndexRises :
    (i : ℕ) (xs : List DisplayItemConfig) → IndexRises (indexed_visible i xs)
unfolding indexed_visible
indexed_visible-IndexRises i [] = tt
indexed_visible-IndexRises i (x ∷ xs) = ground (
  arith,
  indexed_visible-IndexRises (suc i) xs,
  indexed_visible-IndexAbove i (suc i) xs (omega arith),
)

with_order-indexed_visible :
    (k i : ℕ) (xs : List DisplayItemConfig)
    → with_order k (items_of (indexed_visible i xs)) ≡ visible_with k xs
unfolding indexed_visible
with_order-indexed_visible k i [] = refl
with_order-indexed_visible k i (x ∷ xs) = ground (arith, with_order-indexed_visible k (suc i) xs)

-- The result lists the items by rising `order`, and the items of each order `k` are exactly the
-- visible ones of the input with that order, in the input's sequence.
ordered_visible_items-stable :
    (items : List DisplayItemConfig) (k : ℕ)
    → RisesFrom 0 (ordered_visible_items items)
      × (with_order k (ordered_visible_items items) ≡ visible_with k items)
unfolding ordered_visible_items
ordered_visible_items-stable items k = (
  sort_by_key-RisesFrom (indexed_visible 0 items),
  with_order-sort_by_key k (indexed_visible 0 items) (indexed_visible-IndexRises 0 items)
      ∙ with_order-indexed_visible k 0 items,
)
