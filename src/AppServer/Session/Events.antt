-- ===== src/AppServer/Session/Events.antt =====
-- crates/adapters-codex-app-server/src/session.rs: a round of `run_transport`. What the round reads
-- from outside is its input: the clocks, the two flags, the replies to a refresh, the event.
use text.Mathlib.Text.{◌==◌ as str_eq}
use codex_quota_glance.Prelude.{
  ℕ, ◌+◌, leb, if◌then◌else◌, List, [], ◌∷◌, Option, none, some, Bool, true, false, ◌&&◌,
  option_map, unwrap_or, String, ◌>>=◌,
}
use codex_quota_glance.Prelude.Int.{ℤ}
use codex_quota_glance.Prelude.F32.{F32}
use codex_quota_glance.Prelude.Words.{saturating_add}
use codex_quota_glance.AppServer.Json.{Json}
use codex_quota_glance.AppServer.State.{AppServerState, no_account, no_rate_limits}
use codex_quota_glance.AppServer.Patches.{TokenUsageUpdate}
use codex_quota_glance.AppServer.State.Notify.{
  apply_notification_at, is_rate_limits_method, is_token_usage_method,
}
use codex_quota_glance.AppServer.Session.{
  Session, Host, Clock, SourceHealth, beginning, healthy, degraded, disconnected_source,
  stopped_source, fresh, freshness_for, OfficialEndpointTracker, quota_endpoint, default_tracker,
  mark_live, mark_all_cached, emit_with_reset,
}
use codex_quota_glance.AppServer.Session.Refresh.{Replies, refresh}

pub record SessionConfig : Type 0 where
  pub refresh_interval : ℕ
  pub stale_after : ℕ

-- What `recv_timeout` gave.
pub data Event (V : Type 0) : Type 0 where
  ready_event startup_failed reached_eof io_error closed protocol_error : Event V
  unexpected_response elapsed channel_gone : Event V
  notification : V → Event V

pub record Input (V : Type 0) : Type 0 where
  pub clock : Clock
  pub cancelled : Bool
  pub is_ready : Bool
  pub refresh_requested : Bool
  pub replies : Replies V
  pub event : Event V

-- Why the loop returns; after a loss a factory may connect again.
pub data Exit : Type 0 where
  was_cancelled lost was_closed gone : Exit

pub record Loop (V P : Type 0) : Type 0 where
  pub session : Session V P
  pub next_refresh : ℕ
  pub exit : Option Exit

abbrev pub account_updated : String
account_updated = "account/updated"

-- `notification_resets_account_generation`.
abbrev pub resets_account_generation : String → Bool
resets_account_generation method = str_eq method account_updated

unfoldable pub apply_notification_endpoint_status :
    OfficialEndpointTracker → String → ℤ → OfficialEndpointTracker
apply_notification_endpoint_status t method observed_at =
    if is_rate_limits_method method then mark_live t quota_endpoint observed_at else t

module _ {V P : Type 0} where
  unfoldable pub stamp_token_usage_notification :
      String → ℤ → AppServerState V P → AppServerState V P
  stamp_token_usage_notification method observed_at s =
      if is_token_usage_method method
      then record s {
        token_usage =
            option_map {A = TokenUsageUpdate V} {B = TokenUsageUpdate V}
              (λ u. record u { observed_at_unix_ms = some observed_at }) s.token_usage;
      }
      else s

module _ {V P : Type 0} ⦃j : Json V⦄ where
  unfoldable pub reset_account_generation : Session V P → Session V P
  reset_account_generation s = record s {
    state = record {
      account = no_account;
      rate_limits = no_rate_limits;
      token_usage = none;
      account_usage = none;
      last_activity = none;
      thread_activities = [];
    };
    tracker = default_tracker;
  }

module _ {V P : Type 0} ⦃j : Json V⦄ ⦃f : F32 P⦄ (h : Host V P) (c : SessionConfig) where
  abbrev pub method_of : V → String
  method_of message = unwrap_or (j.get "method" message >>= j.as_str) ""

  -- The state after a notification that is no change of the account, or after the reset.
  unfoldable pub take_notification : Clock → V → Session V P → Session V P
  take_notification clock message s = record s {
    state =
        stamp_token_usage_notification (method_of message) clock.unix_ms
          (apply_notification_at h.as_percent h.number_text s.state message clock.unix_ms);
    revision = saturating_add s.revision 1;
    last_data = some clock.instant;
    health = healthy;
    freshness = fresh;
    tracker = apply_notification_endpoint_status s.tracker (method_of message) clock.unix_ms;
  }

  -- A change of the account is followed by a refresh, if the transport is ready.
  unfoldable pub publish_notification : Input V → Bool → Loop V P → Loop V P
  publish_notification input changed l =
      if changed && input.is_ready
      then record l {
        session = refresh h input.clock c.stale_after input.replies true l.session;
        next_refresh = input.clock.instant + c.refresh_interval;
      }
      else record l { session = emit_with_reset h input.clock changed l.session }

  unfoldable pub notify : Input V → V → Loop V P → Loop V P
  notify input message l =
      let changed = resets_account_generation (method_of message) in
      let s = if changed then reset_account_generation l.session else l.session in
      publish_notification input changed
        (record l { session = take_notification input.clock message s })

  -- The state is published with another health, and the loop returns.
  unfoldable pub leave_with : SourceHealth → Exit → Input V → Loop V P → Loop V P
  leave_with health exit input l = record l {
    session = emit_with_reset h input.clock false (record l.session {
      health = health;
      freshness = freshness_for l.session.last_data c.stale_after input.clock.instant;
      tracker = mark_all_cached l.session.tracker;
    });
    exit = some exit;
  }

  unfoldable pub refreshed : Input V → Loop V P → Loop V P
  refreshed input l = record l {
    session = refresh h input.clock c.stale_after input.replies false l.session;
    next_refresh = input.clock.instant + c.refresh_interval;
  }

  -- The time for a refresh has come, or not yet.
  unfoldable pub elapse : Input V → Loop V P → Loop V P
  elapse input l =
      if leb l.next_refresh input.clock.instant
      then (if input.is_ready then refreshed input l else record l {
        session = emit_with_reset h input.clock false (record l.session {
          freshness = freshness_for l.session.last_data c.stale_after input.clock.instant;
        });
        next_refresh = input.clock.instant + c.refresh_interval;
      })
      else l

  unfoldable pub on_event : Input V → Event V → Loop V P → Loop V P
  on_event input ready_event l =
      refreshed input (record l { session = record l.session { health = beginning } })
  on_event input (notification message) l = notify input message l
  on_event input startup_failed l = leave_with disconnected_source lost input l
  on_event input reached_eof l = leave_with disconnected_source lost input l
  on_event input io_error l = leave_with disconnected_source lost input l
  on_event input closed l =
      leave_with (if input.cancelled then stopped_source else disconnected_source) was_closed input
        l
  on_event input protocol_error l = record l {
    session = emit_with_reset h input.clock false (record l.session {
      health = degraded;
      freshness = freshness_for l.session.last_data c.stale_after input.clock.instant;
    });
  }
  on_event input unexpected_response l = record l {
    session = emit_with_reset h input.clock false (record l.session {
      health = degraded;
      freshness = freshness_for l.session.last_data c.stale_after input.clock.instant;
    });
  }
  on_event input elapsed l = elapse input l
  on_event input channel_gone l = leave_with disconnected_source gone input l

  -- A cancelled session publishes its state once more, with the freshness that it had.
  unfoldable pub stop_session : Input V → Loop V P → Loop V P
  stop_session input l = record l {
    session =
        emit_with_reset h input.clock false (record l.session {
          health = stopped_source;
          tracker = mark_all_cached l.session.tracker;
        });
    exit = some was_cancelled;
  }

  -- A round. A loop that returned makes no further one.
  unfoldable pub step : Input V → Option Exit → Loop V P → Loop V P
  step input (some exit) l = l
  step input none l =
      if input.cancelled
      then stop_session input l
      else on_event input input.event
          (if input.is_ready && input.refresh_requested then refreshed input l else l)

  unfoldable pub run_transport : List (Input V) → Loop V P → Loop V P
  run_transport [] l = l
  run_transport (input ∷ inputs) l = run_transport inputs (step input l.exit l)
