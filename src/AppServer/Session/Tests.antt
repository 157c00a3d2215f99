-- ===== src/AppServer/Session/Tests.antt =====
-- A session with JSON trees and whole percentages, and the theorems at concrete inputs.
use codex_quota_glance.Prelude.{List, ℕ, ◌≡◌, ◌⊎◌, refl, [], ◌∷◌, none, some, true, false}
use codex_quota_glance.Prelude.Int.{pos}
use codex_quota_glance.Prelude.F32.{F32, whole}
use codex_quota_glance.AppServer.Json.{Json}
use codex_quota_glance.AppServer.Json.Trees.{
  Tree, null, string, number, object, nothing, member, trees, as_u64_tree, get_member,
}
use codex_quota_glance.AppServer.State.{default_state}
use codex_quota_glance.AppServer.Session.{
  Session, Host, Clock, account_endpoint, OfficialEndpointTracker, status, new_session,
}
use codex_quota_glance.AppServer.Session.Refresh.{
  not_sent, no_response, responded, Replies, refresh,
}
use codex_quota_glance.AppServer.Session.Endpoints.{next_status, reply_of}
use codex_quota_glance.AppServer.Session.Rounds.{refresh_lem}
use codex_quota_glance.AppServer.Session.Events.{
  SessionConfig, Event, notification, closed, elapsed, Input, Loop, notify, run_transport,
  account_updated, resets_account_generation, method_of,
}
use codex_quota_glance.AppServer.Session.Accounts.{
  notify_noninterference, run_transport-AllCached, LastNoneLive,
}
use codex_quota_glance.Prelude.{arith}
use codex_quota_glance.AppServer.Backoff.{default_backoff}
use codex_quota_glance.AppServer.Session.Reconnect.{
  Retries, Attempt, FactoryRound, gave_up, reconnect_from_factory,
}
use codex_quota_glance.AppServer.Session.Reconnect.Attempts.{reconnect_from_factory_lem}

instance abbrev tree_values : Json Tree
tree_values = trees

instance abbrev percentages : F32 ℕ
percentages = whole

abbrev host : Host Tree ℕ
host = record { as_percent = as_u64_tree; number_text = λ n. "0"; text_of = λ codes. "" }

abbrev config : SessionConfig
config = record { refresh_interval = 60; stale_after = 120 }

abbrev clock : Clock
clock = record { instant = 5; unix_ms = pos 1000 }

-- An account is answered, the quota request cannot be sent, and the usage is not answered.
abbrev replies : Replies Tree
replies = record {
  account = responded (record {
    jsonrpc = none;
    id = some (number 1);
    result = some (object (member "account" null nothing));
    error = none;
  });
  quota = not_sent;
  usage = no_response;
}

abbrev session : Session Tree ℕ
session = new_session host []

refresh_lem_example :
    status (refresh host clock 120 replies false session).tracker account_endpoint
    ≡ next_status account_endpoint
        (reply_of account_endpoint replies)
        (pos 1000)
        (status session.tracker account_endpoint)
refresh_lem_example = (refresh_lem host clock 120 replies false session account_endpoint).0

abbrev input : Event Tree → Input Tree
input event = record {
  clock = clock;
  cancelled = false;
  is_ready = true;
  refresh_requested = false;
  replies = replies;
  event = event;
}

abbrev account_changed : Tree
account_changed = object (member "method" (string account_updated) nothing)

changes : resets_account_generation (method_of host config account_changed) ≡ true
unfolding trees get_member
changes = refl

abbrev loop : Loop Tree ℕ
loop = record { session = session; next_refresh = 0; exit = none }

abbrev old_tracker : OfficialEndpointTracker
old_tracker = (refresh host clock 120 replies false session).tracker

notify_noninterference_example :
    notify host config
      (input elapsed)
      account_changed
      (record loop { session = record session { state = default_state; tracker = old_tracker } })
    ≡ notify host config (input elapsed) account_changed loop
notify_noninterference_example =
    notify_noninterference host config (input elapsed) account_changed loop default_state
      old_tracker changes

-- The account changes, and the connection closes.
abbrev closed_loop : Loop Tree ℕ
closed_loop =
    run_transport host config (input (notification account_changed) ∷ (input closed ∷ []))
      (record { session = session; next_refresh = 0; exit = none })

run_transport-AllCached_example :
    (closed_loop.exit ≡ none) ⊎ LastNoneLive closed_loop.session.updates
run_transport-AllCached_example =
    run_transport-AllCached host config (input (notification account_changed) ∷ (input closed ∷ []))
      session 0

abbrev two_retries : Retries
two_retries = record { backoff = default_backoff; most = 2 }

abbrev failing : Attempt
failing = record { wait_cancelled = false; connects = false; clock = clock }

reconnect_from_factory_lem_example :
    (reconnect_from_factory host two_retries (failing ∷ (failing ∷ [])) 0 session).outcome ≡ gave_up
reconnect_from_factory_lem_example =
    (reconnect_from_factory_lem host two_retries (failing ∷ (failing ∷ [])) session
      ((refl, refl), ((refl, refl), tt)) (omega arith) (omega arith) (omega arith)).0

abbrev failing_round : FactoryRound Tree
failing_round = record {
  stops = false;
  connection = none;
  clock = clock;
  stops_after = false;
  wait_cancelled = false;
}

abbrev three_rounds : List (FactoryRound Tree)
three_rounds = failing_round ∷ (failing_round ∷ (failing_round ∷ []))
