-- ===== src/Taskbar/Runtime/Logs.antt =====
-- apps/codex-taskbar/src/official_runtime.rs: what the rounds of the loop book once the session
-- logs are in charge of the day, read from the batches, the reloads, the flushes and the actions
-- alone.
pub mod Booked
use codex_quota_glance.Prelude.{
  ℕ, ◌-◌, ◌≡◌, leb, if◌then◌else◌, List, [], ◌∷◌, ◌++◌, map, Option, none, some, Bool, true, false,
  not, ◌&&◌, ◌||◌,
}
use codex_quota_glance.Prelude.Int.{ℤ}
use codex_quota_glance.Application.Ledger.Books.{LocalUsageLedger, clear}
use codex_quota_glance.Application.Ledger.Invariant.{
  Operation, replaces, records, retains, clears, saves, operate_all,
}
use codex_quota_glance.Settings.Config.{AppConfig}
use codex_quota_glance.Taskbar.Sessions.Events.{SessionTokenEvent}
use codex_quota_glance.Taskbar.Sessions.Tailer.{SessionTokenBatch}
use codex_quota_glance.Taskbar.Runtime.Steps.{
  Runtime, priced, has_events, session_token_poll_interval, local_ledger_flush_interval,
}
use codex_quota_glance.Taskbar.Runtime.Rounds.{
  SettingsAction, manual_refresh, show_history, clear_history, check_updates, download_update,
  export_diagnostics, Round,
}

-- The ledger, with the times of the last poll of the logs and of the last flush.
pub record LogState : Type 0 where
  pub ledger : LocalUsageLedger
  pub last_poll : ℕ
  pub last_flush : ℕ

abbrev pub log_of : {P : Type 0} → Runtime P → LogState
log_of r = record {
  ledger = r.ledger;
  last_poll = r.last_session_token_poll;
  last_flush = r.last_ledger_flush;
}

-- Each event is recorded once.
pub event_operations : ℤ → List SessionTokenEvent → List Operation
event_operations day_key [] = []
event_operations day_key (e ∷ es) =
    records (record { day_key = day_key; hour = e.local_hour }) e.counts (priced e).2
    ∷ event_operations day_key es

-- A batch that begins a day replaces the day, if it has an event.
pub batch_operations : ℤ → Option SessionTokenBatch → List Operation
unfolding event_operations
batch_operations day_key none = []
batch_operations day_key (some batch) =
    if batch.bootstrap && has_events batch.events
    then replaces day_key (map priced batch.events) ∷ []
    else (if batch.bootstrap then [] else event_operations day_key batch.events)

-- An empty batch skips the rest of the round.
abbrev pub is_empty : Option SessionTokenBatch → Bool
is_empty none = false
is_empty (some batch) = not (has_events batch.events)

pub reload_operations : Option AppConfig → List Operation
reload_operations none = []
reload_operations (some next) = retains next.history_retention_days ∷ []

-- What is not saved yet, is, where the database takes it.
pub flush_operations : (saved : Bool) → LocalUsageLedger → List Operation
flush_operations saved l = if l.dirty && saved then saves ∷ [] else []

pub action_operations : (saved : Bool) → List SettingsAction → LocalUsageLedger → List Operation
unfolding flush_operations clear
action_operations saved [] l = []
action_operations saved (clear_history ∷ more) l =
    let done = clears ∷ flush_operations saved (clear l) in
    done ++ action_operations saved more (operate_all l done)
action_operations saved (_ ∷ more) l = action_operations saved more l

module _ {V P : Type 0} where
  pub is_polled : Round V P → LogState → Bool
  is_polled x b = leb session_token_poll_interval (x.at_session.instant - b.last_poll)

  pub is_flushed : Round V P → LogState → Bool
  is_flushed x b =
      b.ledger.dirty && leb local_ledger_flush_interval (x.at_flush.instant - b.last_flush)

  pub listened : Round V P → LogState → LogState × List Operation
  unfolding is_polled batch_operations
  listened x b =
      if is_polled x b
      then (let os = batch_operations x.at_session.local.day_key x.batch in
          (
            record {
              ledger = operate_all b.ledger os;
              last_poll = x.at_session.instant;
              last_flush = b.last_flush;
            },
            os,
          ))
      else (b, [])

  pub reloaded : Round V P → LogState → LogState × List Operation
  unfolding reload_operations
  reloaded x b =
      let os = reload_operations x.loaded in (record b { ledger = operate_all b.ledger os }, os)

  pub flushed : Round V P → LogState → LogState × List Operation
  unfolding is_flushed flush_operations
  flushed x b =
      let os = flush_operations x.saved b.ledger in
      if is_flushed x b
      then (record b { ledger = operate_all b.ledger os; last_flush = x.at_flush.instant }, os)
      else (b, [])

  pub acted : Round V P → LogState → LogState × List Operation
  unfolding action_operations
  acted x b =
      let os = action_operations x.saved x.actions b.ledger in
      (record b { ledger = operate_all b.ledger os }, os)

  pub finished : Round V P → LogState → LogState × List Operation
  unfolding reloaded flushed acted
  finished x b =
      let r = reloaded x b in
      let f = flushed x r.0 in let a = acted x f.0 in (a.0, r.1 ++ (f.1 ++ a.1))

  -- Whether the rest of the round is skipped.
  pub is_skipped : Round V P → LogState → Bool
  unfolding is_polled
  is_skipped x b = is_polled x b && is_empty x.batch

  pub logged : Round V P → LogState → LogState × List Operation
  unfolding listened finished is_skipped
  logged x b =
      let heard = listened x b in
      let last = finished x heard.0 in
      (
        if is_skipped x b then heard.0 else last.0,
        if is_skipped x b then heard.1 else heard.1 ++ last.1,
      )

  pub keeps_on : Round V P → LogState → Bool
  unfolding is_skipped
  keeps_on x b = is_skipped x b || not (x.update_shutdown || x.exit_requested)

  -- All that the rounds book.
  unfoldable pub log_operations : List (Round V P) → LogState → List Operation
  unfolding logged keeps_on
  log_operations [] b = []
  log_operations (x ∷ xs) b =
      let l = logged x b in
      let rest = log_operations xs l.0 in l.1 ++ (if keeps_on x b then rest else [])
