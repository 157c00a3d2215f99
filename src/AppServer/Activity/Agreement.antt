-- ===== src/AppServer/Activity/Agreement.antt =====
-- What the classification keeps apart, and the depth of its searches.
use codex_quota_glance.Prelude.{
  ℕ, zero, suc, ◌<◌, ◌≡◌, refl, List, [], ◌∷◌, Option, none, some, Bool, false, String, arith,
  ◌>>=◌, inl, inr, Option-cases,
}
use codex_quota_glance.Domain.Activity.{ActivityState, completed}
use codex_quota_glance.AppServer.Json.{Json, Laws}
use codex_quota_glance.AppServer.RateLimits.Search.{child_depth}
use codex_quota_glance.Prelude.Int.{ℤ}
use codex_quota_glance.AppServer.Threads.{ActivityEvent}
use codex_quota_glance.AppServer.Activity.{
  is_failure_status, status_to_state, item_started_state, event_state, find_string, search_in,
  string_children, event_of, event_of_method, state_of, parse_activity_event_value, lower_string,
  params_of,
}

status_to_state-completed :
    (s : List ℕ) → status_to_state s ≡ some completed → is_failure_status s ≡ false
unfolding status_to_state
status_to_state-completed [] h = cc
status_to_state-completed (c ∷ cs) h = ground arith

item_started_state-completed :
    (t : List ℕ) (o : Option ActivityState)
    → item_started_state t o ≡ completed
    → o ≡ some completed
unfolding item_started_state
item_started_state-completed t none h = ground arith
item_started_state-completed t (some s) h = ground arith

-- An event is taken for a completion only if its status tells of no failure.
event_state-completed :
    (m status : List ℕ) (waiting flag : Bool) (item_type : List ℕ)
    → event_state m status waiting flag item_type ≡ some completed
    → is_failure_status status ≡ false
unfolding event_state
event_state-completed m status waiting flag item_type h = ground (
  arith,
  status_to_state-completed status,
  item_started_state-completed item_type (status_to_state status),
)

abbrev pub status_keys : List String
status_keys = "status" ∷ "state" ∷ "phase" ∷ "type" ∷ []

module _ {V : Type 0} ⦃j : Json V⦄ where
  search_in-agree :
      (s t : V → Option String) (v : V)
      → ((k : String) (c : V) → j.get k v ≡ some c → s c ≡ t c)
      → (ks : List String) → search_in s ks v ≡ search_in t ks v
  unfolding search_in
  search_in-agree s t v h [] = refl
  search_in-agree s t v h (k ∷ ks) =
      let rest = search_in-agree s t v h ks in
      elim (Option-cases (j.get k v)) [
        | inl e ↦ rw (search_in, e) rest
        | inr (c, e) ↦ rw (search_in, e, h k c e, rest) refl
      ]

  -- The search for a text never runs out of fuel: any two amounts above the depth of the value
  -- find the same.
  find_string-fuel :
      (laws : Laws j) (n m : ℕ) (keys : List String) (v : V)
      → j.depth v < n
      → j.depth v < m
      → find_string n keys v ≡ find_string m keys v
  unfolding find_string
  find_string-fuel laws zero m keys v h k = ground arith
  find_string-fuel laws (suc n) zero keys v h k = ground arith
  find_string-fuel laws (suc n) (suc m) keys v h k =
      let agree =
        search_in-agree (find_string n keys) (find_string m keys) v
          (λ key c e.
            find_string-fuel laws n m keys c (omega (arith, child_depth j laws key c v e))
              (omega (arith, child_depth j laws key c v e)))
          string_children in
      rw agree refl

  state_of-completed :
      (method : String) (params : V)
      → state_of method params ≡ some completed
      → is_failure_status (lower_string status_keys params) ≡ false
  unfolding state_of
  state_of-completed method params h = event_state-completed _ _ _ _ _ h

module _ {V : Type 0} ⦃j : Json V⦄ (to_string : ℤ → String) where
  event_of-completed :
      (message : V) (method : String) (o : Option ActivityState) (event : ActivityEvent V)
      → event_of to_string message method o ≡ some event
      → event.state ≡ completed
      → o ≡ some completed
  unfolding event_of
  event_of-completed message method none event h c = cc
  event_of-completed message method (some s) event h c = ground arith

  event_of_method-completed :
      (message : V) (o : Option String) (event : ActivityEvent V)
      → event_of_method to_string message o ≡ some event
      → event.state ≡ completed
      → is_failure_status (lower_string status_keys (params_of message)) ≡ false
  unfolding event_of_method
  event_of_method-completed message none event h c = cc
  event_of_method-completed message (some method) event h c =
      state_of-completed method (params_of message)
        (event_of-completed message method (state_of method (params_of message)) event h c)

  -- A notification is taken for a completion only if its status, wherever it stands, tells of no
  -- failure.
  parse_activity_event_value-completed :
      (message : V) (event : ActivityEvent V)
      → parse_activity_event_value to_string message ≡ some event
      → event.state ≡ completed
      → is_failure_status (lower_string status_keys (params_of message)) ≡ false
  unfolding parse_activity_event_value
  parse_activity_event_value-completed message event h c =
      event_of_method-completed message (j.get "method" message >>= j.as_str) event h c
