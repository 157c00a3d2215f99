-- ===== src/Platform/Geometry/Tests.antt =====
-- The Rust tests of geometry.rs, and the theorem at the first one's input.
use codex_quota_glance.Prelude.{ℕ, ◌+◌, ◌≡◌, ◌≤◌, refl, Option, none, some}
use codex_quota_glance.Prelude.Int.{ℤ, pos, negsuc, difference}
use codex_quota_glance.Prelude.I32.{i32_of, checked_add, checked_sub, wrapping_sub}
use codex_quota_glance.Prelude.Results.{ok, err}
use codex_quota_glance.Platform.Geometry.{
  PixelRect, TaskbarGeometry, default_probe, layout_probe, width, height, is_valid,
  insufficient_space, missing_right_safety_boundary,
}
use codex_quota_glance.Platform.Geometry.Placement.{layout_probe-IsPlaced}

abbrev rect : (left top right bottom : ℕ) → PixelRect
rect left top right bottom = record {
  left = pos left;
  top = pos top;
  right = pos right;
  bottom = pos bottom;
}

abbrev geometry : Option ℤ → TaskbarGeometry
geometry boundary = record {
  taskbar_rect = rect 0 1040 1920 1080;
  monitor_rect = rect 0 0 1920 1080;
  dpi = 96;
  right_safe_boundary_x = boundary;
}

right_anchor_left_of_boundary :
    layout_probe (geometry (some (pos 1600))) default_probe ≡ ok (rect 1272 1040 1592 1080)
unfolding layout_probe is_valid width height i32_of checked_add checked_sub wrapping_sub difference
right_anchor_left_of_boundary = refl

right_anchor_needs_boundary :
    layout_probe (geometry none) default_probe ≡ err missing_right_safety_boundary
unfolding layout_probe is_valid width height i32_of checked_add checked_sub wrapping_sub difference
right_anchor_needs_boundary = refl

negative_offset_refused :
    layout_probe
      (geometry (some (pos 1600)))
      (record default_probe { reserved_offset_px = negsuc 23 })
    ≡ err insufficient_space
unfolding layout_probe is_valid width height i32_of checked_add checked_sub wrapping_sub difference
negative_offset_refused = refl

layout_probe-IsPlaced_example : 1592 + 8 ≤ 1600
layout_probe-IsPlaced_example =
    (layout_probe-IsPlaced (geometry (some (pos 1600))) default_probe (rect 1272 1040 1592 1080)
      right_anchor_left_of_boundary).6
