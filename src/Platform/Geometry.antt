-- ===== src/Platform/Geometry.antt =====
-- crates/platform-windows/src/geometry.rs, with the configuration and the errors of lib.rs: the
-- place of the component on the taskbar.
pub mod Placement
mod Tests
use codex_quota_glance.Prelude.{
  ℕ, if◌then◌else◌, Option, none, some, Bool, true, false, not, ◌&&◌, ◌||◌, String,
}
use codex_quota_glance.Prelude.Int.{ℤ, pos, ltb_ℤ, leb_ℤ}
use codex_quota_glance.Prelude.I32.{i32_of, checked_add, checked_sub, wrapping_sub}
use codex_quota_glance.Prelude.Results.{Result, ok, err, ok_or, ◌>>=◌}
use codex_quota_glance.Domain.Layout.{TaskbarAnchor}

pub record PixelRect : Type 0 where
  pub left : ℤ
  pub top : ℤ
  pub right : ℤ
  pub bottom : ℤ

unfoldable pub width : PixelRect → ℤ
width r = wrapping_sub r.right r.left

unfoldable pub height : PixelRect → ℤ
height r = wrapping_sub r.bottom r.top

unfoldable pub is_valid : PixelRect → Bool
is_valid r = ltb_ℤ (pos 0) (width r) && ltb_ℤ (pos 0) (height r)

pub record TaskbarGeometry : Type 0 where
  pub taskbar_rect : PixelRect
  pub monitor_rect : PixelRect
  pub dpi : ℕ
  pub right_safe_boundary_x : Option ℤ

pub data PlatformError : Type 0 where
  unsupported_platform taskbar_not_found : PlatformError
  missing_right_safety_boundary insufficient_space : PlatformError
  windows : String → PlatformError

pub record ProbeConfig : Type 0 where
  pub target_monitor_device : Option String
  pub prefer_secondary_monitor : Bool
  pub preferred_width_px : ℕ
  pub anchor : TaskbarAnchor
  pub reserved_offset_px : ℤ
  pub edge_gap_px : ℕ
  pub embed_in_taskbar : Bool

abbrev pub default_probe : ProbeConfig
default_probe = record {
  target_monitor_device = none;
  prefer_secondary_monitor = true;
  preferred_width_px = 320;
  anchor = TaskbarAnchor.right;
  reserved_offset_px = pos 0;
  edge_gap_px = 8;
  embed_in_taskbar = true;
}

abbrev checked_chain : Option ℤ → (ℤ → Option ℤ) → Option ℤ
checked_chain none f = none
checked_chain (some a) f = f a

-- The `match` on the anchor, up to its last `ok_or`.
anchored_x : TaskbarAnchor → TaskbarGeometry → (offset wide gap : ℤ) → Result PlatformError ℤ
anchored_x TaskbarAnchor.left g offset wide gap =
    ok_or (checked_chain (checked_add g.taskbar_rect.left gap) (λ v. checked_add v offset))
      insufficient_space
anchored_x TaskbarAnchor.right g offset wide gap =
    ok_or g.right_safe_boundary_x missing_right_safety_boundary >>= λ boundary.
    ok_or
      (checked_chain (checked_chain (checked_sub boundary gap) (λ v. checked_sub v offset))
        (λ v. checked_sub v wide))
      insufficient_space

below_safe_right : (safe_right : Option ℤ) → PixelRect → Result PlatformError PixelRect
below_safe_right none rect = err insufficient_space
below_safe_right (some safe_right) rect =
    if ltb_ℤ safe_right rect.right then err insufficient_space else ok rect

-- The second check of a right anchor: the boundary holds also for a negative offset.
check_right : TaskbarAnchor → Option ℤ → (gap : ℤ) → PixelRect → Result PlatformError PixelRect
unfolding below_safe_right
check_right TaskbarAnchor.left boundary gap rect = ok rect
check_right TaskbarAnchor.right none gap rect = err missing_right_safety_boundary
check_right TaskbarAnchor.right (some boundary) gap rect =
    below_safe_right (checked_sub boundary gap) rect

-- From the anchored position on.
place_right :
    TaskbarGeometry → ProbeConfig → (gap x : ℤ) → Option ℤ → Result PlatformError PixelRect
unfolding check_right
place_right g c gap x none = err insufficient_space
place_right g c gap x (some right) =
    let taskbar = g.taskbar_rect in
    if ltb_ℤ x taskbar.left || ltb_ℤ taskbar.right right
    then err insufficient_space
    else check_right c.anchor g.right_safe_boundary_x gap
        (record { left = x; top = taskbar.top; right = right; bottom = taskbar.bottom })

place :
    TaskbarGeometry
    → ProbeConfig
    → (wide gap : ℤ) → Result PlatformError ℤ
    → Result PlatformError PixelRect
unfolding place_right
place g c wide gap (err e) = err e
place g c wide gap (ok x) = place_right g c gap x (checked_add x wide)

-- From the configured width and gap as words on.
layout_sized :
    TaskbarGeometry → ProbeConfig → (wide gap : Option ℤ) → Result PlatformError PixelRect
unfolding anchored_x place
layout_sized g c (some wide) (some gap) =
    if leb_ℤ wide (pos 0) || ltb_ℤ (width g.taskbar_rect) wide
    then err insufficient_space
    else place g c wide gap (anchored_x c.anchor g c.reserved_offset_px wide gap)
layout_sized g c _ _ = err insufficient_space

pub layout_probe : TaskbarGeometry → ProbeConfig → Result PlatformError PixelRect
unfolding layout_sized
layout_probe g c =
    if not (is_valid g.taskbar_rect)
    then err insufficient_space
    else layout_sized g c (i32_of c.preferred_width_px) (i32_of c.edge_gap_px)
