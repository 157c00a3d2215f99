-- ===== src/Application/UiSnapshot/Credits.antt =====
-- When the taskbar shows credits.
use codex_quota_glance.Prelude.{
  ◌≡◌, ◌⊎◌, Option, none, some, Bool, true, false, is_some, if◌then◌else◌, arith,
}
use codex_quota_glance.Prelude.F32.{F32}
use codex_quota_glance.Domain.Quota.{
  QuotaValue, is_absent, is_taskbar_visible, with_session_fallback, unavailable,
}
use codex_quota_glance.Domain.Quota.History.{drawn}
use codex_quota_glance.Domain.Official.{OfficialCredits, OfficialSnapshot}
use codex_quota_glance.Application.Monitor.{
  MonitorState, apply_session_fallback, mark_rate_limits_unavailable,
}
use codex_quota_glance.Application.UiSnapshot.{from_monitor_state, is_exhausted, credits_snapshot}

-- A credit balance that the account can use.
abbrev usable_credits : Option OfficialCredits → Bool
usable_credits none = false
usable_credits (some c) =
    if c.has_credits then (if c.unlimited then false else is_some c.balance) else false

module _ {P : Type 0} where
  abbrev pub usable : Option (OfficialSnapshot P) → Bool
  usable none = false
  usable (some o) = usable_credits o.credits

module _ {P : Type 0} ⦃f : F32 P⦄ where
  abbrev pub credits_visible : MonitorState P → Bool
  credits_visible s = (from_monitor_state s).quota.credits.visible_in_taskbar

  -- The credits are shown only where the account has a usable balance and a window that the
  -- taskbar draws is used up: the five-hour one or, where that is explicitly absent, the weekly one.
  credits_visible_only :
      (s : MonitorState P)
      → credits_visible s ≡ true
      → (usable s.official ≡ true)
        × ((is_exhausted (drawn s.five_hour) ≡ true)
            ⊎ ((is_absent s.five_hour.presence ≡ true) × (is_exhausted (drawn s.weekly) ≡ true)))
  unfolding from_monitor_state credits_snapshot is_exhausted
  credits_visible_only s h = ground arith

  -- A session fallback never makes them appear or disappear, and no outage leaves them.
  credits_visible-session :
      (s : MonitorState P) (five_hour weekly : Option (QuotaValue P))
      → (credits_visible (apply_session_fallback s five_hour weekly) ≡ credits_visible s)
        × (credits_visible (mark_rate_limits_unavailable s) ≡ false)
  unfolding from_monitor_state credits_snapshot apply_session_fallback mark_rate_limits_unavailable
      with_session_fallback is_taskbar_visible is_absent unavailable
  credits_visible-session s a b = (ground arith, ground arith)
