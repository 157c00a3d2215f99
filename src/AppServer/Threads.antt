-- ===== src/AppServer/Threads.antt =====
-- crates/adapters-codex-app-server/src/state.rs: the activity of the threads. The hash map of the
-- threads is the list of its values in the order of its iteration, which Rust leaves open.
pub mod Order
mod Tests
use mathlib.Core.List.{filter}
use codex_quota_glance.Prelude.{
  ℕ, if◌then◌else◌, ltb, List, [], ◌∷◌, Option, none, some, Bool, true, false, not, ◌||◌, or_else,
  option_map, String, ◌≡◌,
}
use codex_quota_glance.Prelude.Int.{ℤ, pos, negsuc, pos_part, neg_part, ◌-ℤ◌, ltb_ℤ, leb_ℤ}
use codex_quota_glance.Domain.Activity.{
  ActivityState, idle, completed, failed, max_by_key, priority,
}

pub record ActivityEvent (V : Type 0) : Type 0 where
  pub method : String
  pub state : ActivityState
  pub thread_id : Option String
  pub turn_id : Option String
  pub item_id : Option String
  pub raw : V

pub record ThreadActivityRecord (V : Type 0) : Type 0 where
  pub event : ActivityEvent V
  pub observed_at_unix_ms : ℤ

abbrev pub terminal_activity_notice_ms : ℤ
terminal_activity_notice_ms = pos 10_000

unfoldable pub is_terminal_activity : ActivityState → Bool
is_terminal_activity ActivityState.idle = true
is_terminal_activity ActivityState.completed = true
is_terminal_activity ActivityState.failed = true
is_terminal_activity _ = false

-- `i64::saturating_sub`.
unfoldable pub saturating_sub : ℤ → ℤ → ℤ
saturating_sub a b =
    let d = a -ℤ b in
    if ltb_ℤ (pos 9_223_372_036_854_775_807) d
    then pos 9_223_372_036_854_775_807
    else if ltb_ℤ d (negsuc 9_223_372_036_854_775_807)
    then negsuc 9_223_372_036_854_775_807
    else d

pub Bool-discrete : Discrete Bool
Bool-discrete = hlevel

module _ {V : Type 0} where
  -- A finished thread counts for ten seconds, any other thread always.
  unfoldable pub is_candidate : ℤ → ThreadActivityRecord V → Bool
  unfolding is_terminal_activity saturating_sub
  is_candidate now r =
      not (is_terminal_activity r.event.state)
      || leb_ℤ (saturating_sub now r.observed_at_unix_ms) terminal_activity_notice_ms

  abbrev pub candidates : ℤ → List (ThreadActivityRecord V) → List (ThreadActivityRecord V)
  candidates now threads = filter (λ r. Bool-discrete (is_candidate now r) true) threads

  unfoldable pub aggregated_activity :
      List (ThreadActivityRecord V)
      → (last_activity : Option (ActivityEvent V)) → ℤ
      → Option (ActivityEvent V)
  unfolding max_by_key
  aggregated_activity threads last_activity now =
      or_else
        (option_map (λ r. r.event)
          (max_by_key (λ r. priority r.event.state) (candidates now threads)))
        last_activity
