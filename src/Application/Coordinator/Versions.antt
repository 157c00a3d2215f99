-- ===== src/Application/Coordinator/Versions.antt =====
-- Versions: no update moves the state back, and snapshots that arrive out of order converge.
use codex_quota_glance.Prelude.{
  All, ℕ, ◌<◌, ◌≡◌, ◌≢◌, ◌⊎◌, inl, inr, refl, List, [], ◌∷◌, Option, Bool, true, false, arith,
}
use codex_quota_glance.Prelude.Int.{ℤ, ◌≤ℤ◌, eq_of_parts}
use codex_quota_glance.Domain.Quota.{QuotaValue, QuotaWindowState, from_authoritative}
use codex_quota_glance.Domain.Usage.Outage.{mark_unavailable_lem}
use codex_quota_glance.Application.Snapshots.{RateLimitSnapshot}
use codex_quota_glance.Application.Monitor.{
  is_older, MonitorState, apply_authoritative, update_activity_at, apply_token_usage,
  apply_local_today_usage, apply_official, reset_account_scoped_state, mark_rate_limits_unavailable,
  mark_token_usage_unavailable, mark_official_cached,
}
use codex_quota_glance.Application.Coordinator.{
  TelemetryUpdate, reset_account, rate_limits, activity, token_usage, local_today_usage, official,
  rate_limits_unavailable, authoritative_unavailable, apply, run,
}

is_older_asym :
    (r : ℕ) (t : ℤ) (r' : ℕ) (t' : ℤ) → is_older r t r' t' ≡ true → is_older r' t' r t ≡ false
unfolding is_older
is_older_asym r t r' t' h = ground arith

is_older_trans :
    (r : ℕ) (t : ℤ) (r' : ℕ) (t' : ℤ) (q : ℕ) (u : ℤ)
    → is_older r t r' t' ≡ true
    → is_older r' t' q u ≡ true
    → is_older r t q u ≡ true
unfolding is_older
is_older_trans r t r' t' q u h k = ground arith

is_older_total :
    (r : ℕ) (t : ℤ) (r' : ℕ) (t' : ℤ)
    → (r ≢ r') ⊎ (t ≢ t')
    → (is_older r t r' t' ≡ true) ⊎ (is_older r' t' r t ≡ true)
unfolding is_older
is_older_total r t r' t' h = ground (arith, eq_of_parts t t')

module _ {P : Type 0} where
  -- The order of `(revision, observed_at)`.
  infix 50 ◌≼◌
  abbrev pub ◌≼◌ : MonitorState P → MonitorState P → Type 0
  s ≼ t =
      (s.revision < t.revision)
      ⊎ ((s.revision ≡ t.revision) × (s.observed_at_unix_ms ≤ℤ t.observed_at_unix_ms))

  ≼_trans : (s t u : MonitorState P) → s ≼ t → t ≼ u → s ≼ u
  ≼_trans s t u h k = ground arith

  apply-≼ : (s : MonitorState P) (u : TelemetryUpdate P) → s ≼ (apply s u).0
  unfolding apply apply_official apply_authoritative is_older apply_token_usage
      apply_local_today_usage update_activity_at reset_account_scoped_state
      mark_rate_limits_unavailable mark_token_usage_unavailable mark_official_cached
  apply-≼ s reset_account = ground arith
  apply-≼ s (rate_limits n) = ground arith
  apply-≼ s (activity states at) = ground arith
  apply-≼ s (token_usage n) = ground arith
  apply-≼ s (local_today_usage counts at) = ground arith
  apply-≼ s (official n) = ground arith
  apply-≼ s rate_limits_unavailable = ground arith
  apply-≼ s (authoritative_unavailable at) = ground arith

  -- No sequence of updates, an account reset included, moves the pair of revision and observation
  -- time backwards.
  run-≼ : (s : MonitorState P) (us : List (TelemetryUpdate P)) → s ≼ run s us
  unfolding run
  run-≼ s [] = inr (refl, omega arith)
  run-≼ s (u ∷ us) =
      ≼_trans s (apply s u).0 (run (apply s u).0 us) (apply-≼ s u) (run-≼ (apply s u).0 us)

  -- What an authoritative snapshot decides: the two windows without their diagnostic values, and
  -- the version.
  abbrev pub SameWindow : QuotaWindowState P → QuotaWindowState P → Type 0
  SameWindow v w =
      (v.presence ≡ w.presence)
      × (v.freshness ≡ w.freshness)
      × (v.source ≡ w.source)
      × (v.value ≡ w.value)

  abbrev pub SameQuota : MonitorState P → MonitorState P → Type 0
  SameQuota s t =
      SameWindow s.five_hour t.five_hour
      × SameWindow s.weekly t.weekly
      × (s.observed_at_unix_ms ≡ t.observed_at_unix_ms)
      × (s.revision ≡ t.revision)

  from_authoritative-SameWindow :
      (v : Option (QuotaValue P)) (w w' : QuotaWindowState P)
      → SameWindow (from_authoritative v w) (from_authoritative v w')
  unfolding from_authoritative
  from_authoritative-SameWindow v w w' = ground arith

  abbrev older_snapshot : RateLimitSnapshot P → RateLimitSnapshot P → Bool
  older_snapshot a b = is_older a.revision a.observed_at_unix_ms b.revision b.observed_at_unix_ms

  abbrev both : MonitorState P → RateLimitSnapshot P → RateLimitSnapshot P → MonitorState P
  both s a b = run s (rate_limits a ∷ rate_limits b ∷ [])

  converge_newer :
      (s : MonitorState P) (a b : RateLimitSnapshot P)
      → older_snapshot b a ≡ true
      → SameQuota
          (run s (rate_limits a ∷ rate_limits b ∷ []))
          (run s (rate_limits b ∷ rate_limits a ∷ []))
  unfolding run apply apply_authoritative
  converge_newer s a b h = ground (
    arith,
    is_older_asym b.revision b.observed_at_unix_ms a.revision a.observed_at_unix_ms,
    is_older_trans b.revision b.observed_at_unix_ms a.revision a.observed_at_unix_ms s.revision
        s.observed_at_unix_ms,
    from_authoritative-SameWindow a.five_hour s.five_hour
        (from_authoritative b.five_hour s.five_hour),
    from_authoritative-SameWindow a.weekly s.weekly (from_authoritative b.weekly s.weekly),
  )

  SameQuota-symm : (s t : MonitorState P) → SameQuota s t → SameQuota t s
  SameQuota-symm s t h = ground arith

  -- Two snapshots of different versions leave the same windows, their last known values aside, and
  -- the same version, whichever of them arrives first.
  pub rate_limits_converge :
      (s : MonitorState P) (a b : RateLimitSnapshot P)
      → (a.revision ≢ b.revision) ⊎ (a.observed_at_unix_ms ≢ b.observed_at_unix_ms)
      → SameQuota
          (run s (rate_limits a ∷ rate_limits b ∷ []))
          (run s (rate_limits b ∷ rate_limits a ∷ []))
  rate_limits_converge s a b h =
      elim (is_older_total a.revision a.observed_at_unix_ms b.revision b.observed_at_unix_ms h) [
        | inl e ↦ SameQuota-symm (both s b a) (both s a b) (converge_newer s b a e)
        | inr e ↦ converge_newer s a b e
      ]

  -- Every update but a reset.
  abbrev pub keeps_account : TelemetryUpdate P → Bool
  keeps_account reset_account = false
  keeps_account _ = true

  apply-token_time :
      (s : MonitorState P) (u : TelemetryUpdate P)
      → keeps_account u ≡ true
      → s.token_usage.observed_at_unix_ms ≤ℤ (apply s u).0.token_usage.observed_at_unix_ms
  unfolding apply apply_official apply_authoritative is_older apply_token_usage
      apply_local_today_usage update_activity_at mark_rate_limits_unavailable
      mark_token_usage_unavailable mark_official_cached
  apply-token_time s reset_account h = cc
  apply-token_time s (rate_limits n) h = ground arith
  apply-token_time s (activity states at) h = ground arith
  apply-token_time s (token_usage n) h = ground arith
  apply-token_time s (local_today_usage counts at) h = ground arith
  apply-token_time s (official n) h = ground arith
  apply-token_time s rate_limits_unavailable h = ground arith
  apply-token_time s (authoritative_unavailable at) h =
      ground (arith, (mark_unavailable_lem s.token_usage).7)

  -- While the account stays, the time of the token state never moves backwards.
  run-token_time :
      (s : MonitorState P) (us : List (TelemetryUpdate P))
      → All (λ u. keeps_account u ≡ true) us
      → s.token_usage.observed_at_unix_ms ≤ℤ (run s us).token_usage.observed_at_unix_ms
  unfolding run
  run-token_time s [] h = omega arith
  run-token_time s (u ∷ us) h =
      omega (arith, apply-token_time s u h.0, run-token_time (apply s u).0 us h.1)
