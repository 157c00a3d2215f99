-- ===== src/AppServer/Activity/Tests.antt =====
-- Tests of the classification of notifications.
use codex_quota_glance.Prelude.{◌≡◌, refl, some, none, String}
use codex_quota_glance.Prelude.Int.{ℤ}
use codex_quota_glance.Prelude.Text.{contains, starts_with, same_codes, lower}
use codex_quota_glance.Domain.Activity.{waiting_for_user, completed}
use codex_quota_glance.AppServer.Json.{Json}
use codex_quota_glance.AppServer.Json.Trees.{
  Tree, string, object, nothing, member, trees, get_member, height,
}
use codex_quota_glance.AppServer.Threads.{ActivityEvent}
use codex_quota_glance.AppServer.Activity.{
  find_string, state_of, parse_activity_event_value, event_of_method, event_of, event_state,
  is_waiting_method, find_id, has_waiting_active_flag,
}

instance abbrev tree_values : Json Tree
tree_values = trees

abbrev to_string : ℤ → String
to_string n = "0"

abbrev params : Tree
params = object (member "turn" (object (member "status" (string "completed") nothing)) nothing)

abbrev message : Tree
message = object (member "method" (string "turn/completed") (member "params" params nothing))

abbrev event : ActivityEvent Tree
event = record {
  method = "turn/completed";
  state = completed;
  thread_id = none;
  turn_id = none;
  item_id = none;
  raw = message;
}

completed_turn : parse_activity_event_value to_string message ≡ some event
unfolding parse_activity_event_value event_of_method event_of state_of event_state is_waiting_method
    find_string find_id trees get_member height contains starts_with lower same_codes
    has_waiting_active_flag
completed_turn = refl

approval : state_of "item/commandExecution/requestApproval" (object nothing) ≡ some waiting_for_user
unfolding state_of event_state is_waiting_method find_string trees get_member height contains
    starts_with lower same_codes has_waiting_active_flag
approval = refl
