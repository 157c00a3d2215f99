-- ===== src/Domain/Layout.antt =====
-- crates/domain/src/layout.rs: the taskbar items and their order.
pub mod Order
mod Tests
use codex_quota_glance.Prelude.{
  ℕ, suc, ltb, leb, ◌==◌, if◌then◌else◌, List, [], ◌∷◌, Bool, true, false, ◌&&◌, ◌||◌, map,
}

pub data DisplayItemKind : Type 0 where
  activity_light quota_rings reset_countdown current_thread_tokens today_tokens : DisplayItemKind
  input_tokens output_tokens cache_hit_rate data_freshness : DisplayItemKind

pub data TaskbarAnchor : Type 0 where
  left right : TaskbarAnchor

pub record DisplayItemConfig : Type 0 where
  pub kind : DisplayItemKind
  pub visible : Bool
  pub order : ℕ
  pub min_width_px : ℕ
  pub keep_priority : ℕ

abbrev pub Indexed : Type 0
Indexed = ℕ × DisplayItemConfig

-- The order of the pairs `(item.order, index)`.
abbrev pub before : Indexed → Indexed → Bool
before (i, a) (j, b) = ltb a.order b.order || (a.order == b.order && leb i j)

-- `slice::sort_by_key`, a stable sort.
insert_sorted : Indexed → List Indexed → List Indexed
insert_sorted x [] = x ∷ []
insert_sorted x (y ∷ ys) = if before x y then x ∷ y ∷ ys else y ∷ insert_sorted x ys

sort_by_key : List Indexed → List Indexed
unfolding insert_sorted
sort_by_key [] = []
sort_by_key (x ∷ xs) = insert_sorted x (sort_by_key xs)

-- `iter().enumerate().filter(|(_, item)| item.visible)`, from an index on.
indexed_visible : ℕ → List DisplayItemConfig → List Indexed
indexed_visible i [] = []
indexed_visible i (x ∷ xs) =
    let rest = indexed_visible (suc i) xs in if x.visible then (i, x) ∷ rest else rest

pub ordered_visible_items : List DisplayItemConfig → List DisplayItemConfig
unfolding sort_by_key indexed_visible
ordered_visible_items items = map (λ p. p.1) (sort_by_key (indexed_visible 0 items))
