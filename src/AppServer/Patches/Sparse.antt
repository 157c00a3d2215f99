-- ===== src/AppServer/Patches/Sparse.antt =====
-- A sparse patch of a window changes what it mentions and clears nothing.
use codex_quota_glance.Prelude.{◌≡◌, Option, none, some, true, not, is_some, ◌||◌, arith}
use codex_quota_glance.Prelude.F32.{F32}
use codex_quota_glance.AppServer.Json.{Json}
use codex_quota_glance.AppServer.RateLimits.{RateLimitWindow}
use codex_quota_glance.AppServer.Patches.{merge_rate_limit_window, merge_fields, window_or_new}

module _ {V P : Type 0} ⦃j : Json V⦄ ⦃f : F32 P⦄ (as_percent : V → Option P) where
  merge_fields_idem :
      (w : RateLimitWindow P) (v : V)
      → merge_fields as_percent (merge_fields as_percent w v) v ≡ merge_fields as_percent w v
  unfolding merge_fields
  merge_fields_idem w v = ground arith

  -- No patch removes a window that is there, and the same patch a second time changes nothing more.
  merge_rate_limit_window_lem :
      (existing : Option (RateLimitWindow P)) (patch : Option V)
      → let merged = merge_rate_limit_window as_percent existing patch in
        ((not (is_some existing) || is_some merged) ≡ true)
        × (merge_rate_limit_window as_percent merged patch ≡ merged)
  unfolding merge_rate_limit_window
  merge_rate_limit_window_lem existing none = ground arith
  merge_rate_limit_window_lem existing (some v) =
      ground (arith, merge_fields_idem (window_or_new as_percent existing) v)
