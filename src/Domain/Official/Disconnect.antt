-- ===== src/Domain/Official/Disconnect.antt =====
-- Disconnection and the summary of the three endpoints.
use codex_quota_glance.Prelude.{◌≡◌, Option, none, some, Bool, false, not, is_some, arith, ◌&&◌}
use codex_quota_glance.Prelude.Int.{ℤ, ◌≤ℤ◌}
use codex_quota_glance.Domain.Official.{
  is_live, is_unavailable, OfficialEndpointStatus, cached_status, OfficialSnapshot, cached_snapshot,
  refresh_aggregate_freshness,
}

-- A time, if there is one, is not after `t`.
abbrev pub AtOrBefore : Option ℤ → ℤ → Type 0
AtOrBefore none t = Unit {0}
AtOrBefore (some a) t = a ≤ℤ t

-- A status says "unavailable" exactly where its endpoint never succeeded.
abbrev pub IsTimed : OfficialEndpointStatus → Type 0
IsTimed s = is_unavailable s.freshness ≡ not (is_some s.observed_at_unix_ms)

pub cached_status-IsTimed : (s : OfficialEndpointStatus) → IsTimed (cached_status s)
unfolding cached_status is_unavailable
cached_status-IsTimed s = ground arith

pub cached_status-is_live :
    (s : OfficialEndpointStatus) → is_live (cached_status s).freshness ≡ false
unfolding cached_status is_live
cached_status-is_live s = ground arith

pub cached_status_idem :
    (s : OfficialEndpointStatus) → cached_status (cached_status s) ≡ cached_status s
unfolding cached_status
cached_status_idem s = ground arith

module _ {P : Type 0} (s : OfficialSnapshot P) where
  -- After a disconnection nothing of the snapshot counts as live, neither an endpoint nor the
  -- summary; the account usage, the credits and the time of each endpoint's last success stay; and
  -- a second disconnection changes nothing more.
  cached_snapshot_lem :
      let c = cached_snapshot s in
      (is_live c.account_status.freshness ≡ false)
      × (is_live c.quota_status.freshness ≡ false)
      × (is_live c.usage_status.freshness ≡ false)
      × (is_live c.freshness ≡ false)
      × (c.account_status.observed_at_unix_ms ≡ s.account_status.observed_at_unix_ms)
      × (c.quota_status.observed_at_unix_ms ≡ s.quota_status.observed_at_unix_ms)
      × (c.usage_status.observed_at_unix_ms ≡ s.usage_status.observed_at_unix_ms)
      × (c.account_usage ≡ s.account_usage)
      × (c.credits ≡ s.credits)
      × (cached_snapshot c ≡ c)
  unfolding cached_snapshot is_live
  cached_snapshot_lem = ground arith

  abbrev all_live : Bool
  all_live =
      is_live s.account_status.freshness
      && (is_live s.quota_status.freshness && is_live s.usage_status.freshness)

  abbrev all_unavailable : Bool
  all_unavailable =
      is_unavailable s.account_status.freshness
      && (is_unavailable s.quota_status.freshness && is_unavailable s.usage_status.freshness)

  -- The summary is live exactly where all three endpoints are, unavailable exactly where all three
  -- are, and the summary's time is at or after each endpoint's last success.
  refresh_aggregate_freshness_lem :
      let r = refresh_aggregate_freshness s in
      (is_live r.freshness ≡ all_live)
      × (is_unavailable r.freshness ≡ all_unavailable)
      × AtOrBefore s.account_status.observed_at_unix_ms r.observed_at_unix_ms
      × AtOrBefore s.quota_status.observed_at_unix_ms r.observed_at_unix_ms
      × AtOrBefore s.usage_status.observed_at_unix_ms r.observed_at_unix_ms
  unfolding refresh_aggregate_freshness
  refresh_aggregate_freshness_lem = ground arith
