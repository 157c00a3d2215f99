-- ===== src/AppServer/Session.antt =====
-- crates/adapters-codex-app-server/src/session.rs: the state of a session, its three endpoints and
-- what it publishes. A step reads the clocks once; instants and durations are in nanoseconds.
pub mod Refresh
pub mod Events
pub mod Reconnect
pub mod Endpoints
pub mod Rounds
pub mod Accounts
mod Tests
use codex_quota_glance.Prelude.{
  ℕ, ◌-◌, leb, if◌then◌else◌, List, [], ◌∷◌, map, Option, none, some, Bool, true, false, option_map,
  or_else, unwrap_or, String, ◌>>=◌, ◌||◌,
}
use codex_quota_glance.Prelude.Int.{ℤ}
use codex_quota_glance.Prelude.F32.{F32}
use codex_quota_glance.Domain.Usage.{TokenCounts, UsageSource, app_server}
use codex_quota_glance.Domain.Official.{
  OfficialSnapshot, OfficialEndpointStatus, live_status, cached_status, unavailable_status,
}
use codex_quota_glance.Application.Snapshots.{RateLimitSnapshot, TokenUsageSnapshot}
use codex_quota_glance.AppServer.Json.{Json}
use codex_quota_glance.AppServer.RateLimits.{snapshot_of}
use codex_quota_glance.AppServer.Patches.{TokenUsageUpdate}
use codex_quota_glance.AppServer.Threads.{ActivityEvent, aggregated_activity}
use codex_quota_glance.AppServer.State.{AppServerState, default_state}
use codex_quota_glance.AppServer.State.Project.{official_snapshot_with_status}

pub data SourceHealth : Type 0 where
  beginning healthy degraded disconnected_source stopped_source : SourceHealth

pub data SessionFreshness : Type 0 where
  fresh stale unknown_age : SessionFreshness

pub data OfficialEndpointKind : Type 0 where
  account_endpoint quota_endpoint usage_endpoint : OfficialEndpointKind

pub record OfficialEndpointTracker : Type 0 where
  pub account : OfficialEndpointStatus
  pub quota : OfficialEndpointStatus
  pub usage : OfficialEndpointStatus

abbrev pub default_tracker : OfficialEndpointTracker
default_tracker = record {
  account = unavailable_status;
  quota = unavailable_status;
  usage = unavailable_status;
}

-- `status`, and a write through `status_mut`.
unfoldable pub status : OfficialEndpointTracker → OfficialEndpointKind → OfficialEndpointStatus
status t account_endpoint = t.account
status t quota_endpoint = t.quota
status t usage_endpoint = t.usage

unfoldable pub with_status :
    OfficialEndpointTracker
    → OfficialEndpointKind
    → OfficialEndpointStatus
    → OfficialEndpointTracker
with_status t account_endpoint s = record t { account = s }
with_status t quota_endpoint s = record t { quota = s }
with_status t usage_endpoint s = record t { usage = s }

unfoldable pub mark_live :
    OfficialEndpointTracker → OfficialEndpointKind → ℤ → OfficialEndpointTracker
unfolding with_status
mark_live t kind observed_at = with_status t kind (live_status observed_at)

unfoldable pub mark_failed :
    OfficialEndpointTracker → OfficialEndpointKind → OfficialEndpointTracker
unfolding with_status status
mark_failed t kind = with_status t kind (cached_status (status t kind))

unfoldable pub mark_all_cached : OfficialEndpointTracker → OfficialEndpointTracker
mark_all_cached t = record {
  account = cached_status t.account;
  quota = cached_status t.quota;
  usage = cached_status t.usage;
}

pub record Clock : Type 0 where
  pub instant : ℕ
  pub unix_ms : ℤ

pub record SessionUpdate (V P : Type 0) : Type 0 where
  pub quota : RateLimitSnapshot P
  pub official : OfficialSnapshot P
  pub usage : Option TokenUsageSnapshot
  pub activity : Option (ActivityEvent V)
  pub freshness : SessionFreshness
  pub source_health : SourceHealth
  pub observed_at_unix_ms : Option ℤ
  pub age : Option ℕ
  pub reset_account_scoped_state : Bool

-- The local variables of `run_transport`; `updates` was sent, the newest first.
pub record Session (V P : Type 0) : Type 0 where
  pub state : AppServerState V P
  pub tracker : OfficialEndpointTracker
  pub health : SourceHealth
  pub freshness : SessionFreshness
  pub last_data : Option ℕ
  pub revision : ℕ
  pub updates : List (SessionUpdate V P)

-- Functions of the standard library and of serde_json that the adapter calls.
pub record Host (V P : Type 0) : Type 0 where
  pub as_percent : V → Option P
  pub number_text : ℤ → String
  pub text_of : List ℕ → String

unfoldable pub freshness_for : Option ℕ → (stale_after now : ℕ) → SessionFreshness
freshness_for none stale_after now = unknown_age
freshness_for (some at) stale_after now = if leb (now - at) stale_after then fresh else stale

unfoldable pub usage_of : {V : Type 0} → TokenUsageUpdate V → ℤ → TokenUsageSnapshot
usage_of u observed_at = record {
  current_thread = some (record {
    input = u.input_tokens;
    cached_input = u.cached_input_tokens;
    cache_write_input = u.cache_write_input_tokens;
    output = u.output_tokens;
    reasoning_output = u.reasoning_output_tokens;
    total = u.total_tokens;
  });
  last_turn = u.last;
  model_context_window = u.model_context_window;
  today = none;
  observed_at_unix_ms = unwrap_or u.observed_at_unix_ms observed_at;
  source = app_server;
}

module _ {V P : Type 0} where
  unfoldable pub usage_snapshot : AppServerState V P → ℤ → Option TokenUsageSnapshot
  unfolding usage_of
  usage_snapshot s observed_at = option_map (λ u. usage_of u observed_at) s.token_usage

  -- `AppServerState::aggregated_activity`.
  abbrev pub activity_at : AppServerState V P → ℤ → Option (ActivityEvent V)
  activity_at s now = aggregated_activity (map (λ t. t.1) s.thread_activities) s.last_activity now

  unfoldable pub preferred_usage_thread_id : AppServerState V P → ℤ → Option String
  preferred_usage_thread_id s now =
      or_else (activity_at s now >>= λ a. a.thread_id) (s.token_usage >>= λ u. u.thread_id)

module _ {V P : Type 0} ⦃j : Json V⦄ ⦃f : F32 P⦄ (h : Host V P) where
  -- `emit_state_with_reset`.
  unfoldable pub emitted : Clock → Bool → Session V P → SessionUpdate V P
  emitted clock reset s = record {
    quota =
        snapshot_of s.state.rate_limits.primary s.state.rate_limits.secondary clock.unix_ms
          s.revision;
    official =
        official_snapshot_with_status h.as_percent h.text_of s.state s.tracker.account
          s.tracker.quota s.tracker.usage;
    usage = usage_snapshot s.state clock.unix_ms;
    activity = activity_at s.state clock.unix_ms;
    freshness = s.freshness;
    source_health = s.health;
    observed_at_unix_ms = option_map (λ at. clock.unix_ms) s.last_data;
    age = option_map (λ at. clock.instant - at) s.last_data;
    reset_account_scoped_state = reset;
  }

  unfoldable pub emit_with_reset : Clock → Bool → Session V P → Session V P
  emit_with_reset clock reset s = record s { updates = emitted clock reset s ∷ s.updates }

  -- `run_transport` begins with empty state; `updates` is the channel that it is given.
  abbrev pub new_session : List (SessionUpdate V P) → Session V P
  new_session updates = record {
    state = default_state;
    tracker = default_tracker;
    health = beginning;
    freshness = unknown_age;
    last_data = none;
    revision = 0;
    updates = updates;
  }
