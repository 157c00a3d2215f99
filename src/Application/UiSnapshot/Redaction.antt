-- ===== src/Application/UiSnapshot/Redaction.antt =====
-- What cannot be seen in the snapshots.
use codex_quota_glance.Prelude.{◌>>=◌, ◌≡◌, refl, ap, sym, ◌∙◌, [], Option, none, some, option_map}
use codex_quota_glance.Prelude.F32.{F32}
use codex_quota_glance.Domain.Quota.{QuotaWindowState, is_taskbar_visible}
use codex_quota_glance.Domain.Official.{OfficialThreadUsage, OfficialAccountUsage, OfficialSnapshot}
use codex_quota_glance.Application.Monitor.{MonitorState, official_thread_usage}
use codex_quota_glance.Application.UiSnapshot.{
  TaskbarSnapshot, from_monitor_state, popup_from_monitor_state,
}

-- A thread's usage without its identifier, its credits and its models.
redact_thread : OfficialThreadUsage → OfficialThreadUsage
redact_thread u = record u { thread_id = ""; estimated_usage_credits_micros = 0; groups = [] }

redact_usage : OfficialAccountUsage → OfficialAccountUsage
unfolding redact_thread
redact_usage u = record u {
  thread_usage = option_map redact_thread u.thread_usage;
  daily_usage = [];
  lifetime_tokens = none;
}

module _ {P : Type 0} where
  redact_official : OfficialSnapshot P → OfficialSnapshot P
  unfolding redact_usage
  redact_official o = record o {
    account_usage = option_map redact_usage o.account_usage;
    individual_limit = none;
  }

  redact_window : QuotaWindowState P → QuotaWindowState P
  redact_window w = record w { last_known = none }

  -- The state without thread identifiers, model details, account totals and last known values.
  unfoldable pub redact : MonitorState P → MonitorState P
  unfolding redact_official redact_window
  redact s = record s {
    five_hour = redact_window s.five_hour;
    weekly = redact_window s.weekly;
    token_usage = record (s.token_usage) { current_thread = none; last_known = none };
    official = option_map redact_official s.official;
  }

thread_usd :
    (t : Option OfficialThreadUsage)
    → (option_map redact_thread t >>= λ t. t.estimated_usage_usd_micros)
      ≡ (t >>= λ t. t.estimated_usage_usd_micros)
unfolding redact_thread
thread_usd none = refl
thread_usd (some t) = refl

redact-usd :
    (a : Option OfficialAccountUsage)
    → ((option_map redact_usage a >>= λ u. u.thread_usage) >>= λ t. t.estimated_usage_usd_micros)
      ≡ ((a >>= λ u. u.thread_usage) >>= λ t. t.estimated_usage_usd_micros)
unfolding redact_usage
redact-usd none = refl
redact-usd (some u) = thread_usd u.thread_usage

module _ {P : Type 0} where
  popup-redact :
      (s : MonitorState P) → popup_from_monitor_state (redact s) ≡ popup_from_monitor_state s
  unfolding popup_from_monitor_state redact
  popup-redact s = refl

module _ {P : Type 0} ⦃f : F32 P⦄ where
  from_monitor_state-redact :
      (s : MonitorState P) (o : Option (OfficialSnapshot P))
      → from_monitor_state (redact (record s { official = o }))
        ≡ from_monitor_state (record s { official = o })
  unfolding from_monitor_state redact official_thread_usage is_taskbar_visible
  from_monitor_state-redact s none = refl
  from_monitor_state-redact s (some o) = λ i.
      let t : TaskbarSnapshot P = from_monitor_state (record s { official = some o }) in
      record t {
        usage = record (t.usage) {
          official_estimated_usage_usd_micros = redact-usd o.account_usage i;
        };
      }

  -- Two states that agree but for thread identifiers, model details, account totals, individual
  -- limits, the current thread's counts and the last known values give the pages the same data.
  pub snapshot_noninterference :
      (s t : MonitorState P)
      → redact s ≡ redact t
      → (from_monitor_state s ≡ from_monitor_state t)
        × (popup_from_monitor_state s ≡ popup_from_monitor_state t)
  snapshot_noninterference s t h = (
    sym (from_monitor_state-redact s s.official)
        ∙ ap from_monitor_state h
        ∙ from_monitor_state-redact t t.official,
    sym (popup-redact s) ∙ ap popup_from_monitor_state h ∙ popup-redact t,
  )
