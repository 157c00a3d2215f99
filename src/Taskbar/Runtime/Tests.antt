-- ===== src/Taskbar/Runtime/Tests.antt =====
-- apps/codex-taskbar/src/official_runtime.rs: small runs of the loop.
use codex_quota_glance.Prelude.OrdMap.{lookup}
use codex_quota_glance.Taskbar.Runtime.Updates.{is_healthy}
use codex_quota_glance.Prelude.{
  ℕ, ◌*◌, ◌≡◌, refl, List, [], ◌∷◌, Option, none, some, Bool, true, false, arith,
}
use codex_quota_glance.Prelude.Int.{pos}
use codex_quota_glance.Domain.Quota.{is_taskbar_visible}
use codex_quota_glance.Domain.Usage.{UsageSource, TokenCounts, display_total, is_app_server}
use codex_quota_glance.Domain.Official.{empty_snapshot}
use codex_quota_glance.Application.Snapshots.{TokenUsageSnapshot}
use codex_quota_glance.Application.Coordinator.Disconnect.{live_account}
use codex_quota_glance.Application.Ledger.Books.{
  default_ledger, commit, holds_day, observe_session_event_priced, replace_session_day_priced,
}
use codex_quota_glance.Application.Ledger.Invariant.{operate_all}
use codex_quota_glance.Settings.Config.{AppConfig, default_config}
use codex_quota_glance.AppServer.Session.{SessionUpdate, healthy, disconnected_source, fresh}
use codex_quota_glance.Taskbar.Sessions.Events.{SessionTokenEvent}
use codex_quota_glance.Taskbar.Runtime.Popups.{new_tracker, observe_all, observe_token_usage}
use codex_quota_glance.Taskbar.Runtime.Lease.{
  Sighting, is_live_at, no_lease, observe_all-expires, observe_all as sight_all,
}
use codex_quota_glance.Taskbar.Runtime.Steps.{
  Runtime, Clocks, published, popup_shown, take_update, second,
}
use codex_quota_glance.Taskbar.Runtime.Rounds.{Round, run_rounds, round, new_runtime}
use codex_quota_glance.Application.Coordinator.{run}
use codex_quota_glance.Application.Coordinator.Authority.{authority}
use codex_quota_glance.Application.Ledger.Invariant.{records}
use codex_quota_glance.Taskbar.Runtime.Logs.{log_of, log_operations}
use codex_quota_glance.Taskbar.Runtime.Logs.Booked.{run_rounds-session_only}
use codex_quota_glance.Taskbar.Runtime.Delivered.{delivered, run_rounds-delivered}
use codex_quota_glance.Taskbar.Runtime.Outages.{take_update-unhealthy}

abbrev total : ℕ → TokenCounts
total n = record {
  input = none;
  cached_input = none;
  cache_write_input = none;
  output = none;
  reasoning_output = none;
  total = some n;
}

abbrev usage : (total at : ℕ) → UsageSource → TokenUsageSnapshot
usage n at source = record {
  current_thread = some (total n);
  last_turn = none;
  model_context_window = none;
  today = none;
  observed_at_unix_ms = pos at;
  source = source;
}

abbrev baseline : List (Option TokenUsageSnapshot)
baseline = some (usage 100 10 UsageSource.app_server) ∷ (none ∷ [])

local_tokens :
    (observe_token_usage
      (observe_all new_tracker baseline)
      (some (usage 120 12 UsageSource.sqlite_fallback))).1
    ≡ false
unfolding observe_all is_app_server
local_tokens = refl

abbrev sightings : List Sighting
sightings = record { activity_present = true; source_health = healthy; now = 5 * second } ∷ []

observe_all-expires_example : is_live_at (sight_all no_lease sightings) (15 * second) ≡ false
observe_all-expires_example =
    observe_all-expires sightings (5 * second) (15 * second) (omega arith, tt) (omega arith)

abbrev clocks : ℕ → Clocks
clocks n = record {
  instant = n * second;
  now = pos (n * 1000);
  later = pos (n * 1000);
  local = record { day_key = pos 20260901; hour = 9 };
}

abbrev lost : SessionUpdate ℕ ℕ
lost = record {
  quota = record { five_hour = none; weekly = none; observed_at_unix_ms = pos 0; revision = 0 };
  official = empty_snapshot;
  usage = some (usage 120 12 UsageSource.app_server);
  activity = none;
  freshness = fresh;
  source_health = disconnected_source;
  observed_at_unix_ms = none;
  age = none;
  reset_account_scoped_state = true;
}

abbrev settings : AppConfig
settings = default_config false

abbrev start : Runtime ℕ
start = new_runtime settings default_ledger 0 0 0

take_update-unhealthy_example :
    let t = (take_update (clocks 7) lost start).0 in
    (t.authoritative_healthy ≡ false)
    × (is_taskbar_visible t.coordinator.five_hour ≡ false)
    × (is_taskbar_visible t.coordinator.weekly ≡ false)
    × (t.coordinator.token_usage.current_thread ≡ none)
    × (t.coordinator.token_usage.fresh ≡ false)
    × (live_account t.coordinator.official ≡ false)
    × (t.coordinator.observed_at_unix_ms ≡ pos 7000)
unfolding is_healthy
take_update-unhealthy_example =
    take_update-unhealthy (clocks 7) lost start refl (omega arith) (omega arith)

abbrev event : SessionTokenEvent
event = record { counts = total 40; model = none; local_day_key = pos 20260901; local_hour = 9 }

abbrev busy : ℕ → Bool → Round ℕ ℕ
busy n bootstrap = record {
  at_update = clocks n;
  update = none;
  at_fallback = clocks n;
  found = none;
  at_session = clocks n;
  batch = some (record { events = event ∷ []; bootstrap = bootstrap });
  loaded = none;
  at_flush = clocks n;
  saved = true;
  connected = true;
  actions = [];
  update_shutdown = false;
  exit_requested = false;
}

abbrev after : Runtime ℕ
after = run_rounds (busy 1 true ∷ (busy 2 false ∷ [])) start

-- The first batch shows no popup, the second does.
popups :
    (round (busy 2 false) (round (busy 1 true) start).runtime).calls
    ≡ popup_shown after.coordinator ∷ (published after.coordinator ∷ [])
unfolding run_rounds default_config replace_session_day_priced holds_day lookup commit
    observe_session_event_priced display_total
popups = refl

abbrev in_charge : Runtime ℕ
in_charge = (round (busy 1 true) start).runtime

taken_charge : in_charge.session_today_authoritative ≡ true
unfolding round default_config replace_session_day_priced holds_day lookup commit
taken_charge = refl

-- The event that is logged later is recorded once.
logged_once :
    log_operations (busy 2 false ∷ []) (log_of in_charge)
    ≡ records (record { day_key = (clocks 2).local.day_key; hour = 9 }) event.counts none ∷ []
unfolding log_operations default_config replace_session_day_priced holds_day lookup commit round
    operate_all observe_session_event_priced display_total
logged_once = refl

run_rounds-session_only_example :
    (run_rounds (busy 2 false ∷ []) in_charge).ledger
    ≡ operate_all in_charge.ledger (log_operations (busy 2 false ∷ []) (log_of in_charge))
run_rounds-session_only_example = run_rounds-session_only (busy 2 false ∷ []) in_charge taken_charge

-- A lost session, while an event is read from the logs.
abbrev two_rounds : List (Round ℕ ℕ)
two_rounds = busy 1 true ∷ (record (busy 7 false) { update = some lost } ∷ [])

run_rounds-delivered_example :
    authority (run_rounds two_rounds start).coordinator
    ≡ authority (run start.coordinator (delivered two_rounds start))
run_rounds-delivered_example = run_rounds-delivered two_rounds start
