-- ===== src/Domain/Official/Tests.antt =====
-- The Rust test of official.rs.
use codex_quota_glance.Prelude.{ℕ, ◌≡◌, refl, some, false}
use codex_quota_glance.Prelude.Int.{pos}
use codex_quota_glance.Domain.Official.{
  OfficialSnapshot, empty_snapshot, live_status, refresh_aggregate_freshness,
}

abbrev two_live : OfficialSnapshot ℕ
two_live = record (empty_snapshot {P = ℕ}) {
  account_status = live_status (pos 5);
  quota_status = live_status (pos 8);
  spend_control_reached = some false;
}

refreshed_at : (refresh_aggregate_freshness two_live).observed_at_unix_ms ≡ pos 8
unfolding refresh_aggregate_freshness live_status
refreshed_at = refl
