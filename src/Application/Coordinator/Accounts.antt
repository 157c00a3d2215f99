-- ===== src/Application/Coordinator/Accounts.antt =====
-- An account reset: what belongs to the old account has no influence afterwards.
use codex_quota_glance.Prelude.{◌≡◌, ap, List, ◌∷◌, arith}
use codex_quota_glance.Application.Monitor.{MonitorState, reset_account_scoped_state}
use codex_quota_glance.Application.Coordinator.{TelemetryUpdate, reset_account, apply, run}

module _ {P : Type 0} where
  -- Two states that differ only in what belongs to the account, in the windows, the token counts,
  -- the official snapshot and every last known value, are the same after a reset and any updates.
  pub reset_noninterference :
      (s t : MonitorState P) (us : List (TelemetryUpdate P))
      → s.activity ≡ t.activity
      → s.activity_entered_at_unix_ms ≡ t.activity_entered_at_unix_ms
      → s.observed_at_unix_ms ≡ t.observed_at_unix_ms
      → s.revision ≡ t.revision
      → run s (reset_account ∷ us) ≡ run t (reset_account ∷ us)
  unfolding run apply reset_account_scoped_state
  reset_noninterference s t us a e o r =
      let same : reset_account_scoped_state s ≡ reset_account_scoped_state t = ground arith in
      ap (λ x. run x us) same
