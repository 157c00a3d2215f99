-- ===== src/Domain/Activity/Tests.antt =====
-- The Rust tests of activity.rs.
use codex_quota_glance.Prelude.{◌≡◌, refl, [], ◌∷◌, true}
use codex_quota_glance.Domain.Activity.{
  ActivityState, executing, waiting_for_user, aggregate, lamp_style, style, green, timed,
}

aggregate_waiting : aggregate (executing ∷ waiting_for_user ∷ []) ≡ waiting_for_user
unfolding aggregate
aggregate_waiting = refl

idle_breathes : lamp_style ActivityState.idle ≡ style green (timed 3000) true
unfolding lamp_style
idle_breathes = refl
