-- ===== src/Taskbar/Runtime/Rounds.antt =====
-- apps/codex-taskbar/src/official_runtime.rs: `process_settings_actions`, and the whole round of
-- `run_loop`.
use codex_quota_glance.Prelude.{
  ℕ, if◌then◌else◌, List, [], ◌∷◌, ◌++◌, Option, Bool, true, false, not, ◌||◌,
}
use codex_quota_glance.Application.Monitor.{initial}
use codex_quota_glance.Application.Ledger.Books.{LocalUsageLedger, clear}
use codex_quota_glance.Settings.Config.{AppConfig}
use codex_quota_glance.AppServer.Session.{SessionUpdate}
use codex_quota_glance.Taskbar.Sessions.Tailer.{SessionTokenBatch}
use codex_quota_glance.Taskbar.Runtime.Popups.{new_tracker}
use codex_quota_glance.Taskbar.Runtime.Lease.{no_lease}
use codex_quota_glance.Taskbar.Runtime.Fallback.{FallbackSnapshot}
use codex_quota_glance.Taskbar.Runtime.Steps.{
  Runtime, HostCall, Clocks, receive_update, fallback_step, session_step, reload_step, flush,
  flush_step,
}

pub data SettingsAction : Type 0 where
  manual_refresh show_history clear_history check_updates download_update export_diagnostics :
      SettingsAction

-- What an action starts elsewhere. A notification is not kept.
pub data Effect : Type 0 where
  refresh_requested details_shown update_checked update_downloaded diagnostics_exported : Effect

abbrev refresh_if : Bool → List Effect
refresh_if true = refresh_requested ∷ []
refresh_if false = []

unfoldable pub act :
    (connected saved : Bool) → SettingsAction → LocalUsageLedger → LocalUsageLedger × List Effect
unfolding flush clear
act connected saved manual_refresh l = (l, refresh_if connected)
act connected saved show_history l = (l, details_shown ∷ [])
act connected saved clear_history l = (flush saved (clear l), [])
act connected saved check_updates l = (l, update_checked ∷ [])
act connected saved download_update l = (l, update_downloaded ∷ [])
act connected saved export_diagnostics l = (l, diagnostics_exported ∷ [])

unfoldable pub process_settings_actions :
    (connected saved : Bool)
    → List SettingsAction
    → LocalUsageLedger
    → LocalUsageLedger × List Effect
unfolding act
process_settings_actions connected saved [] l = (l, [])
process_settings_actions connected saved (a ∷ more) l =
    let done = act connected saved a l in
    let rest = process_settings_actions connected saved more done.0 in (rest.0, done.1 ++ rest.1)

-- What a round is given: the clocks of its steps, what arrives, whether the database takes the
-- ledger, and whether an update or the user ends the loop.
pub record Round (V P : Type 0) : Type 0 where
  pub at_update : Clocks
  pub update : Option (SessionUpdate V P)
  pub at_fallback : Clocks
  pub found : Option (Option FallbackSnapshot × Option FallbackSnapshot)
  pub at_session : Clocks
  pub batch : Option SessionTokenBatch
  pub loaded : Option AppConfig
  pub at_flush : Clocks
  pub saved : Bool
  pub connected : Bool
  pub actions : List SettingsAction
  pub update_shutdown : Bool
  pub exit_requested : Bool

pub record Step (P : Type 0) : Type 0 where
  pub runtime : Runtime P
  pub calls : List (HostCall P)
  pub effects : List Effect
  pub goes_on : Bool

module _ {V P : Type 0} where
  -- The part of a round that an empty batch skips.
  unfoldable pub finish_round : Round V P → Runtime P → Step P
  unfolding reload_step flush_step process_settings_actions
  finish_round x r =
      let reloaded = reload_step x.loaded r in
      let flushed = flush_step x.at_flush x.saved reloaded.0 in
      let acted = process_settings_actions x.connected x.saved x.actions flushed.ledger in
      record {
        runtime = record flushed { ledger = acted.0 };
        calls = reloaded.1;
        effects = acted.1;
        goes_on = not (x.update_shutdown || x.exit_requested);
      }

  unfoldable pub after_session :
      Round V P → List (HostCall P) → Runtime P → (skipped : Bool) → Step P
  unfolding finish_round
  after_session x calls r true = record { runtime = r; calls = calls; effects = []; goes_on = true }
  after_session x calls r false =
      let last = finish_round x r in record last { calls = calls ++ last.calls }

  unfoldable pub round : Round V P → Runtime P → Step P
  unfolding receive_update fallback_step session_step after_session
  round x r =
      let received = receive_update x.at_update x.update r in
      let looked = fallback_step x.at_fallback x.found received.0 in
      let listened = session_step x.at_session x.batch looked.0 in
      after_session x (received.1 ++ (looked.1 ++ listened.1.0)) listened.0 listened.1.1

  -- The rounds of a list, as long as the loop goes on.
  unfoldable pub run_rounds : List (Round V P) → Runtime P → Runtime P
  unfolding round
  run_rounds [] r = r
  run_rounds (x ∷ xs) r =
      let s = round x r in
      let rest = run_rounds xs s.runtime in if s.goes_on then rest else s.runtime

module _ {P : Type 0} where
  abbrev pub new_runtime :
      AppConfig → LocalUsageLedger → (start_fallback start_session start : ℕ) → Runtime P
  new_runtime settings ledger start_fallback start_session start = record {
    settings = settings;
    coordinator = initial;
    ledger = ledger;
    authoritative_healthy = false;
    app_server_activity = no_lease;
    popup_tracker = new_tracker;
    last_fallback = start_fallback;
    last_session_token_poll = start_session;
    last_ledger_flush = start;
    session_token_baseline_ready = false;
    session_today_authoritative = false;
  }
