-- ===== src/Taskbar/Runtime/Outages.antt =====
-- apps/codex-taskbar/src/official_runtime.rs: a session that is lost, and a new account.
use codex_quota_glance.Prelude.{
  ◌≡◌, refl, ap, ◌∙◌, List, [], ◌∷◌, ◌++◌, All, All-append, append_assoc, Option, none, some, Bool,
  true, false, Bool-cases, inl, inr,
}
use codex_quota_glance.Prelude.Int.{ℤ, ◌≤ℤ◌}
use codex_quota_glance.Domain.Quota.{is_taskbar_visible}
use codex_quota_glance.Domain.Official.{is_live}
use codex_quota_glance.Application.Monitor.{MonitorState}
use codex_quota_glance.Application.Snapshots.{TokenUsageSnapshot}
use codex_quota_glance.Application.Coordinator.{
  TelemetryUpdate, reset_account, rate_limits, official, authoritative_unavailable, apply, run,
}
use codex_quota_glance.Application.Coordinator.Timely.{Timely, run-observed, disconnect-accepted}
use codex_quota_glance.Application.Coordinator.Disconnect.{disconnect_atomic, live_account}
use codex_quota_glance.AppServer.Session.{SessionUpdate}
use codex_quota_glance.AppServer.Threads.{ActivityEvent}
use codex_quota_glance.Taskbar.Runtime.Lease.{is_concrete_activity}
use codex_quota_glance.Taskbar.Runtime.Updates.{
  is_healthy, activity_update, usage_update, when, session_updates, apply_session_update,
}
use codex_quota_glance.Taskbar.Runtime.Popups.{
  TokenObservation, new_tracker, observe_token_usage, observe_current, take_observation, reset,
  ConsumptionPopupTracker,
}
use codex_quota_glance.Taskbar.Runtime.Relation.{run-append}
use codex_quota_glance.Taskbar.Runtime.Steps.{Runtime, Clocks, published, take_update}

module _ (P : Type 0) (later : ℤ) where
  when-Timely :
      (b : Bool) (u : TelemetryUpdate P) → Timely later u → All (Timely {P = P} later) (when b u)
  when-Timely true u t = (t, tt)
  when-Timely false u t = tt

  usage_update-Timely :
      (n : Option TokenUsageSnapshot) → All (Timely {P = P} later) (usage_update n)
  unfolding usage_update
  usage_update-Timely none = tt
  usage_update-Timely (some n) = (tt, tt)

  activity_update-Timely :
      {V : Type 0}
      → (e : Option (ActivityEvent V)) (now : ℤ)
      → All (Timely {P = P} later) (activity_update e now)
  unfolding activity_update
  activity_update-Timely none now = tt
  activity_update-Timely (some e) now = elim (Bool-cases (is_concrete_activity e.state)) [
    | inl c ↦ rw c (tt, tt)
    | inr c ↦ rw c tt
  ]

module _ {V P : Type 0} where
  -- What is applied before the session's loss is.
  abbrev front : SessionUpdate V P → ℤ → List (TelemetryUpdate P)
  front u now =
      when u.reset_account_scoped_state reset_account
      ++ (official u.official
          ∷ (when (is_live u.official.quota_status.freshness) (rate_limits u.quota)
              ++ (activity_update u.activity now ++ usage_update u.usage)))

  front-Timely :
      (later : ℤ) (u : SessionUpdate V P) (now : ℤ)
      → u.quota.observed_at_unix_ms ≤ℤ later
      → All (Timely later) (front u now)
  front-Timely later u now h =
      All-append (Timely later) (when u.reset_account_scoped_state reset_account) _
        (when-Timely P later u.reset_account_scoped_state reset_account tt)
        (
          tt,
          All-append (Timely later)
              (when (is_live u.official.quota_status.freshness) (rate_limits u.quota)) _
              (when-Timely P later (is_live u.official.quota_status.freshness) (rate_limits u.quota)
                h)
              (All-append (Timely later) (activity_update u.activity now) (usage_update u.usage)
                (activity_update-Timely P later u.activity now)
                (usage_update-Timely P later u.usage)),
        )

  session_updates-front :
      (u : SessionUpdate V P) (now later : ℤ)
      → is_healthy u ≡ false
      → session_updates u now later ≡ front u now ++ (authoritative_unavailable later ∷ [])
  unfolding session_updates
  session_updates-front u now later h = rw h (simp append_assoc)

  run-session_updates :
      (s : MonitorState P) (u : SessionUpdate V P) (now later : ℤ)
      → is_healthy u ≡ false
      → run s (session_updates u now later)
        ≡ (apply (run s (front u now)) (authoritative_unavailable later)).0
  unfolding run
  run-session_updates s u now later h =
      ap (run s) (session_updates-front u now later h)
      ∙ run-append s (front u now) (authoritative_unavailable later ∷ [])

  -- After an update from a session that is lost or stale, where neither the update's windows nor
  -- the state that the loop holds were observed after the present, so that the clock was not set
  -- back: the loop takes the official source as unhealthy, neither window is drawn, no current
  -- token count is left, the account is not live, whatever the update says, and the state is dated
  -- to the present.
  pub take_update-unhealthy :
      (c : Clocks) (u : SessionUpdate V P) (r : Runtime P)
      → is_healthy u ≡ false
      → u.quota.observed_at_unix_ms ≤ℤ c.later
      → r.coordinator.observed_at_unix_ms ≤ℤ c.later
      → let t = (take_update c u r).0 in
        (t.authoritative_healthy ≡ false)
        × (is_taskbar_visible t.coordinator.five_hour ≡ false)
        × (is_taskbar_visible t.coordinator.weekly ≡ false)
        × (t.coordinator.token_usage.current_thread ≡ none)
        × (t.coordinator.token_usage.fresh ≡ false)
        × (live_account t.coordinator.official ≡ false)
        × (t.coordinator.observed_at_unix_ms ≡ c.later)
  unfolding take_update apply_session_update
  take_update-unhealthy c u r h q o =
      let s = run r.coordinator (front u c.now) in
      let observed =
        run-observed c.later r.coordinator (front u c.now) o (front-Timely c.later u c.now q) in
      let gone = disconnect_atomic s c.later (disconnect-accepted c.later s observed) in
      rw (run-session_updates r.coordinator u c.now c.later h)
        (h, gone.0, gone.1, gone.2, gone.3, gone.4, gone.6)

observe-first : (x : Option TokenObservation) → (observe_current new_tracker x).1 ≡ false
unfolding observe_current take_observation
observe-first none = refl
observe-first (some now) = refl

observe-reset :
    (t : ConsumptionPopupTracker) (n : Option TokenUsageSnapshot)
    → (observe_token_usage (reset t) n).1 ≡ false
unfolding observe_token_usage reset
observe-reset t n = observe-first _

module _ {V P : Type 0} where
  -- An update that comes with a new account shows no popup, whatever was consumed before or
  -- since: it only publishes the state.
  take_update-new_account :
      (c : Clocks) (u : SessionUpdate V P) (r : Runtime P)
      → u.reset_account_scoped_state ≡ true
      → (take_update c u r).1 ≡ published (take_update c u r).0.coordinator ∷ []
  unfolding take_update
  take_update-new_account c u r h = rw (h, observe-reset r.popup_tracker u.usage) refl
