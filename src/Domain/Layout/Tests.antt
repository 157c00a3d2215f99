-- ===== src/Domain/Layout/Tests.antt =====
-- The Rust test of layout.rs.
use codex_quota_glance.Prelude.{ℕ, ◌≡◌, refl, ◌∷◌, [], List, Bool, true, false, map}
use codex_quota_glance.Domain.Layout.{
  DisplayItemKind, DisplayItemConfig, activity_light, quota_rings, today_tokens,
  ordered_visible_items,
}

abbrev item : DisplayItemKind → Bool → ℕ → DisplayItemConfig
item kind visible order = record {
  kind = kind;
  visible = visible;
  order = order;
  min_width_px = 24;
  keep_priority = 10;
}

abbrev sample : List DisplayItemConfig
sample = item quota_rings true 2 ∷ item activity_light true 1 ∷ item today_tokens false 0 ∷ []

sample_kinds : map (λ i. i.kind) (ordered_visible_items sample) ≡ activity_light ∷ quota_rings ∷ []
unfolding ordered_visible_items
sample_kinds = refl
