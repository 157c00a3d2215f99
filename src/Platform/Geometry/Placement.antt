-- ===== src/Platform/Geometry/Placement.antt =====
-- Where a placed component lies.
use codex_quota_glance.Prelude.{ℕ, ◌+◌, ◌≡◌, ◌≤◌, ◌<◌, Option, none, some, arith}
use codex_quota_glance.Prelude.Int.{ℤ, pos, pos_part, neg_part, ◌≤ℤ◌}
use codex_quota_glance.Prelude.I32.{
  i32_of, checked_add, Sum, SumOf, checked_add-SumOf, checked_sub-DifferenceOf,
}
use codex_quota_glance.Prelude.Results.{Result, ok, err}
use codex_quota_glance.Domain.Layout.{TaskbarAnchor}
use codex_quota_glance.Platform.Geometry.{
  PixelRect, TaskbarGeometry, ProbeConfig, PlatformError, check_right, layout_probe, anchored_x,
  below_safe_right, place_right, place, layout_sized,
}

-- The gap to the safe boundary: a right anchor has one and stays left of it.
abbrev pub Clears : TaskbarAnchor → Option ℤ → (gap : ℕ) → (right : ℤ) → Type 0
Clears TaskbarAnchor.left boundary gap right = Unit {0}
Clears TaskbarAnchor.right none gap right = 1 ≤ 0
Clears TaskbarAnchor.right (some b) gap right =
    pos_part right + gap + neg_part b ≤ pos_part b + neg_part right

abbrev pub IsPlaced : TaskbarGeometry → ProbeConfig → PixelRect → Type 0
IsPlaced g c r =
    (g.taskbar_rect.left ≤ℤ r.left)
    × (r.right ≤ℤ g.taskbar_rect.right)
    × Sum r.left (pos c.preferred_width_px) r.right
    × (0 < c.preferred_width_px)
    × (r.top ≡ g.taskbar_rect.top)
    × (r.bottom ≡ g.taskbar_rect.bottom)
    × Clears c.anchor g.right_safe_boundary_x c.edge_gap_px r.right

module _ (g : TaskbarGeometry) (c : ProbeConfig) (r : PixelRect) where
  check_right-Clears :
      (a : TaskbarAnchor) (b : Option ℤ) (gap : ℕ) (rect : PixelRect)
      → check_right a b (pos gap) rect ≡ ok r
      → (r ≡ rect) × Clears a b gap r.right
  unfolding check_right below_safe_right
  check_right-Clears TaskbarAnchor.left b gap rect h = ground arith
  check_right-Clears TaskbarAnchor.right none gap rect h = ground arith
  check_right-Clears TaskbarAnchor.right (some b) gap rect h =
      ground (arith, checked_sub-DifferenceOf b (pos gap))

  place_right-IsPlaced :
      (x : ℤ) (right : Option ℤ)
      → SumOf x (pos c.preferred_width_px) right
      → 0 < c.preferred_width_px
      → place_right g c (pos c.edge_gap_px) x right ≡ ok r
      → IsPlaced g c r
  unfolding place_right
  place_right-IsPlaced x none s p h = ground arith
  place_right-IsPlaced x (some right) s p h =
      let rect : PixelRect = record {
        left = x;
        top = g.taskbar_rect.top;
        right = right;
        bottom = g.taskbar_rect.bottom;
      } in
      ground (arith, check_right-Clears c.anchor g.right_safe_boundary_x c.edge_gap_px rect)

  place-IsPlaced :
      (start : Result PlatformError ℤ)
      → 0 < c.preferred_width_px
      → place g c (pos c.preferred_width_px) (pos c.edge_gap_px) start ≡ ok r
      → IsPlaced g c r
  unfolding place
  place-IsPlaced (err e) p h = ground arith
  place-IsPlaced (ok x) p h =
      place_right-IsPlaced x (checked_add x (pos c.preferred_width_px))
        (checked_add-SumOf x (pos c.preferred_width_px)) p h

-- The component is placed within the taskbar, from its top to its bottom, exactly as wide as
-- configured; with a right anchor there is a safe boundary, and the component stays left of it by
-- the gap at least, whatever offset is configured.
pub layout_probe-IsPlaced :
    (g : TaskbarGeometry) (c : ProbeConfig) (r : PixelRect)
    → layout_probe g c ≡ ok r
    → IsPlaced g c r
unfolding layout_probe layout_sized i32_of
layout_probe-IsPlaced g c r h =
    let start =
      anchored_x c.anchor g c.reserved_offset_px (pos c.preferred_width_px) (pos c.edge_gap_px) in
    ground (arith, place-IsPlaced g c r start)
