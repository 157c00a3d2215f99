-- ===== src/Taskbar/Runtime/Steps.antt =====
-- apps/codex-taskbar/src/official_runtime.rs, `run_loop`: the steps of a round. The clocks, the
-- databases, the session logs and what the user asks for are what a round is given; a host that
-- fails ends the loop, and here it does not fail. A step reads the clock once where the source
-- reads it several times in a row.
use codex_quota_glance.Prelude.{
  ℕ, ◌-◌, ◌*◌, leb, if◌then◌else◌, List, [], ◌∷◌, ◌++◌, map, Option, none, some, Bool, true, false,
  not, ◌&&◌, ◌||◌, option_map,
}
use codex_quota_glance.Prelude.Int.{ℤ}
use codex_quota_glance.Domain.Usage.{UsageSource}
use codex_quota_glance.Application.Monitor.{MonitorState}
use codex_quota_glance.Application.Snapshots.{TokenUsageSnapshot}
use codex_quota_glance.Application.Coordinator.{token_usage, local_today_usage, apply}
use codex_quota_glance.Application.Ledger.Books.{
  LocalUsageLedger, LocalUsageClock, Event, replace_session_day_priced,
  observe_session_event_priced, today_counts, set_retention_days, mark_persisted,
}
use codex_quota_glance.Settings.Config.{AppConfig, SyncMode, smart, economy}
use codex_quota_glance.AppServer.Session.{SessionUpdate}
use codex_quota_glance.Taskbar.Sessions.Events.{SessionTokenEvent}
use codex_quota_glance.Taskbar.Sessions.Tailer.{SessionTokenBatch}
use codex_quota_glance.Taskbar.Pricing.{official_api_equivalent_cost_micro_usd}
use codex_quota_glance.Taskbar.Runtime.Popups.{ConsumptionPopupTracker, reset, observe_token_usage}
use codex_quota_glance.Taskbar.Runtime.Lease.{AppServerActivityLease, observe, is_live_at}
use codex_quota_glance.Taskbar.Runtime.Updates.{is_concrete, apply_session_update}
use codex_quota_glance.Taskbar.Runtime.Fallback.{FallbackSnapshot, apply_fallback}

-- Nanoseconds.
abbrev pub second : ℕ
second = 1000000000

abbrev of_mode : SyncMode → ℕ
of_mode smart = 5 * second
of_mode economy = 30 * second

pub fallback_poll_interval : AppConfig → ℕ
fallback_poll_interval settings = of_mode settings.sync_mode

abbrev pub session_token_poll_interval : ℕ
session_token_poll_interval = second

abbrev pub local_ledger_flush_interval : ℕ
local_ledger_flush_interval = 5 * 60 * second

-- The local variables of `run_loop`, but for the surface's size.
pub record Runtime (P : Type 0) : Type 0 where
  pub settings : AppConfig
  pub coordinator : MonitorState P
  pub ledger : LocalUsageLedger
  pub authoritative_healthy : Bool
  pub app_server_activity : AppServerActivityLease
  pub popup_tracker : ConsumptionPopupTracker
  pub last_fallback : ℕ
  pub last_session_token_poll : ℕ
  pub last_ledger_flush : ℕ
  pub session_token_baseline_ready : Bool
  pub session_today_authoritative : Bool

-- What the host is told, with the state that it is shown.
pub data HostCall (P : Type 0) : Type 0 where
  published : MonitorState P → HostCall P
  popup_shown : MonitorState P → HostCall P

module _ {P : Type 0} where
  abbrev popup_if : Bool → MonitorState P → List (HostCall P)
  popup_if true s = popup_shown s ∷ []
  popup_if false s = []

-- The instant, the time of day and the local clock of a step.
pub record Clocks : Type 0 where
  pub instant : ℕ
  pub now : ℤ
  pub later : ℤ
  pub local : LocalUsageClock

module _ {V P : Type 0} where
  unfoldable pub take_update :
      Clocks → SessionUpdate V P → Runtime P → Runtime P × List (HostCall P)
  unfolding reset observe_token_usage observe is_concrete apply_session_update
  take_update c u r =
      let tracker =
        if u.reset_account_scoped_state then reset r.popup_tracker else r.popup_tracker in
      let seen = observe_token_usage tracker u.usage in
      let applied = apply_session_update r.coordinator u c.now c.later in
      (
        record r {
          coordinator = applied.0;
          authoritative_healthy = applied.1;
          popup_tracker = seen.0;
          app_server_activity =
              observe r.app_server_activity (is_concrete u.activity) u.source_health c.instant;
        },
        published applied.0 ∷ popup_if seen.1 applied.0,
      )

  unfoldable pub receive_update :
      Clocks → Option (SessionUpdate V P) → Runtime P → Runtime P × List (HostCall P)
  unfolding take_update
  receive_update c none r = (r, [])
  receive_update c (some u) r = take_update c u r

module _ {P : Type 0} where
  -- The snapshots of the state database and of the history, if there is a home directory.
  unfoldable pub look_back :
      Clocks
      → Option (Option FallbackSnapshot × Option FallbackSnapshot)
      → Runtime P
      → Runtime P × List (HostCall P)
  unfolding apply_fallback is_live_at
  look_back c none r = (r, [])
  look_back c (some found) r =
      let b =
        apply_fallback r.authoritative_healthy (is_live_at r.app_server_activity c.instant)
          r.session_today_authoritative c.local found.0 found.1 (r.coordinator, r.ledger) in
      (record r { coordinator = b.0; ledger = b.1 }, published b.0 ∷ [])

  unfoldable pub fallback_step :
      Clocks
      → Option (Option FallbackSnapshot × Option FallbackSnapshot)
      → Runtime P
      → Runtime P × List (HostCall P)
  unfolding look_back fallback_poll_interval
  fallback_step c found r =
      if leb (fallback_poll_interval r.settings) (c.instant - r.last_fallback)
      then look_back c found (record r { last_fallback = c.instant })
      else (r, [])

pub priced : SessionTokenEvent → Event
unfolding official_api_equivalent_cost_micro_usd
priced e = (
  e.local_hour,
  e.counts,
  option_map (λ c. c.0) (official_api_equivalent_cost_micro_usd e.counts e.model),
)

unfoldable pub observe_events : ℤ → List SessionTokenEvent → LocalUsageLedger → LocalUsageLedger
unfolding priced
observe_events day_key [] l = l
observe_events day_key (e ∷ es) l =
    observe_events day_key es
      (observe_session_event_priced l (record { day_key = day_key; hour = e.local_hour }) e.counts
        (priced e).2).0

abbrev pub has_events : List SessionTokenEvent → Bool
has_events [] = false
has_events (e ∷ es) = true

pub last_of : SessionTokenEvent → List SessionTokenEvent → SessionTokenEvent
last_of e [] = e
last_of e (f ∷ es) = last_of f es

-- The day is taken whole at first, then event by event.
unfoldable pub book : ℤ → SessionTokenBatch → LocalUsageLedger → LocalUsageLedger
unfolding observe_events
book day_key batch l =
    if batch.bootstrap && has_events batch.events
    then (replace_session_day_priced l day_key (map priced batch.events)).0
    else (if batch.bootstrap then l else observe_events day_key batch.events l)

-- `flush_local_usage_ledger`: whether the database took the ledger.
unfoldable pub flush : (saved : Bool) → LocalUsageLedger → LocalUsageLedger
flush saved l = if l.dirty && saved then mark_persisted l else l

pub session_usage : SessionTokenEvent → ℤ → TokenUsageSnapshot
session_usage e now = record {
  current_thread = none;
  last_turn = some e.counts;
  model_context_window = none;
  today = none;
  observed_at_unix_ms = now;
  source = UsageSource.session_log_fallback;
}

module _ {P : Type 0} where
  -- What the loop does with the last event.
  unfoldable pub show_event :
      Clocks → (bootstrap : Bool) → SessionTokenEvent → Runtime P → Runtime P × List (HostCall P)
  unfolding session_usage
  show_event c bootstrap e r =
      let used = (apply r.coordinator (token_usage (session_usage e c.now))).0 in
      let s = (apply used (local_today_usage (today_counts r.ledger c.local.day_key) c.later)).0 in
      (
        record r { coordinator = s; session_token_baseline_ready = true },
        popup_if (r.session_token_baseline_ready && not bootstrap) s ++ (published s ∷ []),
      )

  -- The third says that the rest of the round is skipped.
  unfoldable pub show_events :
      Clocks
      → SessionTokenBatch
      → List SessionTokenEvent
      → Runtime P
      → Runtime P × (List (HostCall P) × Bool)
  unfolding show_event last_of
  show_events c batch [] r = (record r { session_token_baseline_ready = true }, ([], true))
  show_events c batch (e ∷ es) r =
      let shown = show_event c batch.bootstrap (last_of e es) r in (shown.0, (shown.1, false))

  unfoldable pub take_batch :
      Clocks → Option SessionTokenBatch → Runtime P → Runtime P × (List (HostCall P) × Bool)
  unfolding book show_events
  take_batch c none r = (r, ([], false))
  take_batch c (some batch) r = show_events c batch batch.events (record r {
    ledger = book c.local.day_key batch r.ledger;
    session_today_authoritative =
        batch.bootstrap && has_events batch.events || r.session_today_authoritative;
  })

  unfoldable pub session_step :
      Clocks → Option SessionTokenBatch → Runtime P → Runtime P × (List (HostCall P) × Bool)
  unfolding take_batch
  session_step c batch r =
      if leb session_token_poll_interval (c.instant - r.last_session_token_poll)
      then take_batch c batch (record r { last_session_token_poll = c.instant })
      else (r, ([], false))

  -- The settings that were loaded, where a reload was asked for and they could be.
  unfoldable pub reload_step : Option AppConfig → Runtime P → Runtime P × List (HostCall P)
  reload_step none r = (r, [])
  reload_step (some next) r = (
    record r { settings = next; ledger = set_retention_days r.ledger next.history_retention_days },
    published r.coordinator ∷ [],
  )

  unfoldable pub flush_step : Clocks → (saved : Bool) → Runtime P → Runtime P
  unfolding flush
  flush_step c saved r =
      if r.ledger.dirty && leb local_ledger_flush_interval (c.instant - r.last_ledger_flush)
      then record r { ledger = flush saved r.ledger; last_ledger_flush = c.instant }
      else r
