-- ===== src/AppServer/Activity.antt =====
-- crates/adapters-codex-app-server/src/activity.rs: which activity a notification tells of. Texts
-- in lower case are the lists of their code points.
pub mod Agreement
mod Tests
use codex_quota_glance.Prelude.{
  ℕ, zero, suc, ◌+◌, if◌then◌else◌, List, [], ◌∷◌, Option, none, some, Bool, true, false, ◌&&◌,
  ◌||◌, or_else, unwrap_or, String, option_map, ◌>>=◌,
}
use codex_quota_glance.Prelude.Int.{ℤ}
use codex_quota_glance.Prelude.Text.{
  codes, lower, same_codes, contains, ends_with, eq_ignore_ascii_case,
}
use codex_quota_glance.Domain.Activity.{
  ActivityState, thinking, executing, waiting_for_user, completed, failed, idle, unknown,
}
use codex_quota_glance.AppServer.Json.{Json}
use codex_quota_glance.AppServer.Threads.{ActivityEvent}

abbrev pub has : List ℕ → String → Bool
has text part = contains text (codes part)

abbrev pub is_text : List ℕ → String → Bool
is_text text name = same_codes text (codes name)

unfoldable pub is_failure_status : List ℕ → Bool
is_failure_status s =
    has s "fail" || (has s "error" || (has s "cancel" || (has s "reject" || has s "denied")))

unfoldable pub status_to_state : List ℕ → Option ActivityState
status_to_state [] = none
status_to_state (c ∷ cs) =
    let s = c ∷ cs in
    if is_failure_status s
    then some failed
    else if has s "wait"
        || (has s "approv" || (has s "user_input" || (has s "userinput" || has s "needs_input")))
    then some waiting_for_user
    else if has s "complete" || (is_text s "done" || (is_text s "success" || is_text s "succeeded"))
    then some completed
    else if has s "idle" || is_text s "notrunning"
    then some idle
    else if has s "execut"
        || (has s "tool" || (has s "command" || (has s "shell" || has s "running")))
    then some executing
    else if has s "think"
        || (has s "reason" || (has s "progress" || (has s "active" || has s "start")))
    then some thinking
    else none

-- `unwrap_or_default().to_ascii_lowercase()`.
abbrev pub lower_or_empty : Option String → List ℕ
lower_or_empty none = []
lower_or_empty (some s) = lower s

unfoldable pub is_request : List ℕ → Bool
is_request m =
    has m "request"
    || (has m "requested" || (has m "pending" || (has m "required" || has m "needs")))

unfoldable pub is_waiting_method : (method request_payload : List ℕ) → Bool
unfolding is_request
is_waiting_method m payload =
    let approval = has m "approval" || (has m "execapproval" || has m "permissions") in
    let user_input =
      has m "userinput"
      || (has m "user_input" || (has m "requestuserinput" || has m "request_user_input")) in
    let payload_is_waiting =
      has payload "approval" || (has payload "userinput" || has payload "user_input") in
    ((approval || user_input) && is_request m) || (is_text m "server/request" && payload_is_waiting)

unfoldable pub item_started_state : (item_type : List ℕ) → Option ActivityState → ActivityState
item_started_state t status_state =
    if has t "approval" || (has t "user_input" || has t "userinput")
    then waiting_for_user
    else if has t "command" || (has t "tool" || (has t "shell" || (has t "patch" || has t "file")))
    then executing
    else unwrap_or status_state thinking

abbrev pub string_children : List String
string_children = "item" ∷ "turn" ∷ "status" ∷ "request" ∷ "approval" ∷ []

abbrev pub id_children : List String
id_children = "item" ∷ "turn" ∷ "thread" ∷ []

unfoldable pub is_waiting_flag : Option String → Bool
is_waiting_flag none = false
is_waiting_flag (some s) =
    eq_ignore_ascii_case s "waitingOnApproval" || eq_ignore_ascii_case s "waitingOnUserInput"

module _ {V : Type 0} ⦃j : Json V⦄ where
  -- The first key that holds a text.
  unfoldable pub first_text : List String → V → Option String
  first_text [] v = none
  first_text (k ∷ ks) v = or_else (j.get k v >>= j.as_str) (first_text ks v)

  -- The first child under one of the keys in which the search finds something.
  unfoldable pub search_in : (V → Option String) → List String → V → Option String
  search_in search [] v = none
  search_in search (k ∷ ks) v = or_else (j.get k v >>= search) (search_in search ks v)

  -- `find_string`, on fuel.
  unfoldable pub find_string : ℕ → List String → V → Option String
  unfolding first_text search_in
  find_string zero keys v = none
  find_string (suc fuel) keys v =
      or_else (first_text keys v) (search_in (find_string fuel keys) string_children v)

  -- `to_string` of a number.
  module _ (to_string : ℤ → String) where
    abbrev pub id_text : V → Option String
    id_text v = or_else (j.as_str v) (option_map to_string (j.as_i64 v))

    unfoldable pub first_id : List String → V → Option String
    first_id [] v = none
    first_id (k ∷ ks) v = or_else (j.get k v >>= id_text) (first_id ks v)

    -- `find_id`, on fuel.
    unfoldable pub find_id : ℕ → List String → V → Option String
    unfolding first_id search_in
    find_id zero keys v = none
    find_id (suc fuel) keys v =
        or_else (first_id keys v) (search_in (find_id fuel keys) id_children v)

  unfoldable pub any_waiting_flag : Option (List V) → Bool
  unfolding is_waiting_flag
  any_waiting_flag none = false
  any_waiting_flag (some []) = false
  any_waiting_flag (some (flag ∷ flags)) =
      is_waiting_flag (j.as_str flag) || any_waiting_flag (some flags)

  unfoldable pub has_waiting_active_flag : V → Bool
  unfolding any_waiting_flag
  has_waiting_active_flag params =
      any_waiting_flag (j.get "status" params >>= j.get "activeFlags" >>= j.as_array)

abbrev completed_or_failed : List ℕ → ActivityState
completed_or_failed status = if is_failure_status status then failed else completed

-- The chain of tests on the method in lower case; `none` is an event that is not known.
unfoldable pub event_state :
    (method status : List ℕ) (waiting waiting_flag : Bool) (item_type : List ℕ)
    → Option ActivityState
unfolding is_failure_status status_to_state item_started_state
event_state m status waiting waiting_flag item_type =
    if waiting
    then some (if is_failure_status status then failed else waiting_for_user)
    else if is_text m "thread/status/changed" || is_text m "thread/status_changed"
    then some
        (if waiting_flag then waiting_for_user else unwrap_or (status_to_state status) unknown)
    else if is_text m "turn/started" || is_text m "turn/started/changed"
    then some thinking
    else if is_text m "turn/completed" || is_text m "turn/complete"
    then some (completed_or_failed status)
    else if is_text m "turn/failed"
    then some failed
    else if is_text m "item/started" || is_text m "item/started/changed"
    then some (item_started_state item_type (status_to_state status))
    else if is_text m "item/completed" || is_text m "item/complete"
    then some (completed_or_failed status)
    else if is_text m "item/failed" || (has m "/failed" || ends_with m (codes "failed"))
    then some failed
    else none

module _ {V : Type 0} ⦃j : Json V⦄ where
  -- The fuel of the searches; nothing lies deeper than the value is.
  abbrev pub lower_string : List String → V → List ℕ
  lower_string keys params = lower_or_empty (find_string (suc (j.depth params)) keys params)

  abbrev pub params_of : V → V
  params_of message = unwrap_or (j.get "params" message) message

  unfoldable pub state_of : String → V → Option ActivityState
  state_of method params =
      let m = lower method in
      event_state m (lower_string ("status" ∷ "state" ∷ "phase" ∷ "type" ∷ []) params)
        (is_waiting_method m
          (lower_string ("kind" ∷ "type" ∷ "requestType" ∷ "request_type" ∷ []) params))
        (has_waiting_active_flag params)
        (lower_string ("itemType" ∷ "item_type" ∷ "type" ∷ "kind" ∷ []) params)

module _ {V : Type 0} ⦃j : Json V⦄ (to_string : ℤ → String) where
  abbrev pub id_in : List String → V → Option String
  id_in keys params = find_id to_string (suc (j.depth params)) keys params

  unfoldable pub event_of : V → String → Option ActivityState → Option (ActivityEvent V)
  event_of message method none = none
  event_of message method (some state) = some (record {
    method = method;
    state = state;
    thread_id = id_in ("threadId" ∷ "thread_id" ∷ []) (params_of message);
    turn_id = id_in ("turnId" ∷ "turn_id" ∷ []) (params_of message);
    item_id = id_in ("itemId" ∷ "item_id" ∷ []) (params_of message);
    raw = message;
  })

  unfoldable pub event_of_method : V → Option String → Option (ActivityEvent V)
  event_of_method message none = none
  event_of_method message (some method) =
      event_of message method (state_of method (params_of message))

  unfoldable pub parse_activity_event_value : V → Option (ActivityEvent V)
  parse_activity_event_value message = event_of_method message (j.get "method" message >>= j.as_str)
