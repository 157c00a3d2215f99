-- ===== src/AppServer/State/Notify.antt =====
-- crates/adapters-codex-app-server/src/state.rs: the notifications by their method.
use text.Mathlib.Text.{◌==◌ as str_eq}
use codex_quota_glance.Prelude.{
  if◌then◌else◌, List, [], ◌∷◌, Option, none, some, Bool, ◌||◌, String, ◌>>=◌,
}
use codex_quota_glance.Prelude.Int.{ℤ}
use codex_quota_glance.Prelude.F32.{F32}
use codex_quota_glance.Prelude.Text.{codes, starts_with}
use codex_quota_glance.AppServer.Json.{Json}
use codex_quota_glance.AppServer.Threads.{ActivityEvent, ThreadActivityRecord}
use codex_quota_glance.AppServer.Activity.{parse_activity_event_value}
use codex_quota_glance.AppServer.State.{AppServerState}
use codex_quota_glance.AppServer.State.Merge.{merge_account, merge_rate_limits, merge_token_usage}

abbrev pub is_rate_limits_method : String → Bool
is_rate_limits_method m =
    str_eq m "account/rateLimits/updated" || str_eq m "account/rate_limits/updated"

abbrev pub is_token_usage_method : String → Bool
is_token_usage_method m =
    str_eq m "thread/tokenUsage/updated" || str_eq m "thread/token_usage/updated"

abbrev has_prefix : String → String → Bool
has_prefix m prefix = starts_with (codes m) (codes prefix)

unfoldable pub is_activity_method : String → Bool
is_activity_method m =
    has_prefix m "thread/"
    || (has_prefix m "turn/"
        || (has_prefix m "item/"
            || (has_prefix m "approval/"
                || (has_prefix m "execApproval/" || has_prefix m "requestUserInput/"))))

module _ {V : Type 0} where
  unfoldable pub insert_thread :
      String
      → ThreadActivityRecord V
      → List (String × ThreadActivityRecord V)
      → List (String × ThreadActivityRecord V)
  insert_thread id r [] = (id, r) ∷ []
  insert_thread id r ((key, old) ∷ threads) =
      if str_eq key id then (id, r) ∷ threads else (key, old) ∷ insert_thread id r threads

  unfoldable pub record_thread :
      {P : Type 0} → AppServerState V P → ActivityEvent V → ℤ → Option String → AppServerState V P
  unfolding insert_thread
  record_thread s event observed_at none = s
  record_thread s event observed_at (some thread_id) = record s {
    thread_activities =
        insert_thread thread_id (record { event = event; observed_at_unix_ms = observed_at })
          s.thread_activities;
  }

  unfoldable pub take_event :
      {P : Type 0} → AppServerState V P → ℤ → Option (ActivityEvent V) → AppServerState V P
  unfolding record_thread
  take_event s observed_at none = s
  take_event s observed_at (some event) =
      record_thread (record s { last_activity = some event }) event observed_at event.thread_id

module _ {V P : Type 0} ⦃j : Json V⦄ ⦃f : F32 P⦄ (as_percent : V → Option P)
    (to_string : ℤ → String) where
  unfoldable pub apply_method : AppServerState V P → V → ℤ → Option String → AppServerState V P
  apply_method s message observed_at none = s
  apply_method s message observed_at (some method) =
      if str_eq method "account/updated"
      then record s { account = merge_account s.account message }
      else if is_rate_limits_method method
      then record s { rate_limits = merge_rate_limits as_percent s.rate_limits message }
      else if is_token_usage_method method
      then record s { token_usage = merge_token_usage s.token_usage message }
      else if is_activity_method method
      then take_event s observed_at (parse_activity_event_value to_string message)
      else s

  unfoldable pub apply_notification_at : AppServerState V P → V → ℤ → AppServerState V P
  unfolding apply_method
  apply_notification_at s message observed_at =
      apply_method s message observed_at (j.get "method" message >>= j.as_str)
