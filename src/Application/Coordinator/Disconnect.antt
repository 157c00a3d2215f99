-- ===== src/Application/Coordinator/Disconnect.antt =====
-- A disconnection as the UI sees it.
use codex_quota_glance.Prelude.{◌≡◌, none, Bool, true, false, arith, Option, some}
use codex_quota_glance.Prelude.Int.{ℤ}
use codex_quota_glance.Domain.Quota.{is_taskbar_visible, unavailable}
use codex_quota_glance.Domain.Usage.Outage.{mark_unavailable_lem}
use codex_quota_glance.Domain.Official.{is_live, OfficialSnapshot, cached_snapshot}
use codex_quota_glance.Application.Monitor.{
  MonitorState, mark_rate_limits_unavailable, mark_token_usage_unavailable, mark_official_cached,
}
use codex_quota_glance.Application.Coordinator.{authoritative_unavailable, apply}

module _ {P : Type 0} where
  abbrev pub live_account : Option (OfficialSnapshot P) → Bool
  live_account none = false
  live_account (some o) = is_live o.freshness

  -- An accepted disconnection is one step: neither window is drawn, no current token count is
  -- left, the token state is not fresh, the account is not live, and the activity stays.
  pub disconnect_atomic :
      (s : MonitorState P) (at : ℤ)
      → (apply s (authoritative_unavailable at)).1 ≡ true
      → let t = (apply s (authoritative_unavailable at)).0 in
        (is_taskbar_visible t.five_hour ≡ false)
        × (is_taskbar_visible t.weekly ≡ false)
        × (t.token_usage.current_thread ≡ none)
        × (t.token_usage.fresh ≡ false)
        × (live_account t.official ≡ false)
        × (t.activity ≡ s.activity)
        × (t.observed_at_unix_ms ≡ at)
        × (t.revision ≡ s.revision)
  unfolding apply mark_rate_limits_unavailable mark_token_usage_unavailable mark_official_cached
      unavailable is_taskbar_visible cached_snapshot is_live
  disconnect_atomic s at h = ground (arith, mark_unavailable_lem s.token_usage)
