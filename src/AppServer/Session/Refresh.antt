-- ===== src/AppServer/Session/Refresh.antt =====
-- crates/adapters-codex-app-server/src/session.rs: a refresh, which sends the three requests, takes
-- the responses in turn and publishes one update.
use codex_quota_glance.Prelude.{
  ℕ, if◌then◌else◌, Option, none, some, Bool, true, false, ◌&&◌, ◌||◌, is_some, ◌>>=◌,
}
use codex_quota_glance.Prelude.Int.{ℤ}
use codex_quota_glance.Prelude.F32.{F32}
use codex_quota_glance.Prelude.Words.{saturating_add}
use codex_quota_glance.AppServer.Json.{Json, contains_key}
use codex_quota_glance.AppServer.Codec.Decode.{JsonRpcResponse}
use codex_quota_glance.AppServer.State.{AppServerState, object_of}
use codex_quota_glance.AppServer.State.Replace.{
  replace_account, replace_rate_limits, replace_account_usage,
}
use codex_quota_glance.AppServer.Session.{
  Session, Host, Clock, healthy, degraded, fresh, freshness_for, OfficialEndpointKind,
  account_endpoint, quota_endpoint, usage_endpoint, OfficialEndpointTracker, mark_live, mark_failed,
  emit_with_reset,
}

-- What became of a request: it could not be sent, no response came in time, or one came.
pub data Reply (V : Type 0) : Type 0 where
  not_sent no_response : Reply V
  responded : JsonRpcResponse V → Reply V

pub record Replies (V : Type 0) : Type 0 where
  pub account : Reply V
  pub quota : Reply V
  pub usage : Reply V

module _ {V : Type 0} ⦃j : Json V⦄ where
  unfoldable pub valid_account : V → Bool
  valid_account v =
      j.is_object v
      && (contains_key "account" v
          || (is_some (j.get "requiresOpenaiAuth" v >>= j.as_bool)
              || is_some (j.get "requires_openai_auth" v >>= j.as_bool)))

  unfoldable pub has_summary : V → Bool
  has_summary v = j.is_object v && is_some (object_of (j.get "summary" v))

module _ {V P : Type 0} ⦃j : Json V⦄ ⦃f : F32 P⦄ (h : Host V P) where
  -- `apply_response`, once there is a result; the flag says that it was taken.
  unfoldable pub apply_result :
      OfficialEndpointKind → V → AppServerState V P → AppServerState V P × Bool
  apply_result account_endpoint v s =
      if valid_account v then (record s { account = replace_account v }, true) else (s, false)
  apply_result quota_endpoint v s =
      let (limits, taken) = replace_rate_limits h.as_percent s.rate_limits v in
      (record s { rate_limits = limits }, taken)
  apply_result usage_endpoint v s =
      if has_summary v
      then (let (usage, taken) = replace_account_usage s.account_usage v in
          (record s { account_usage = usage }, taken))
      else (s, false)

  unfoldable pub apply_response :
      OfficialEndpointKind → Option V → AppServerState V P → AppServerState V P × Bool
  apply_response kind none s = (s, false)
  apply_response kind (some v) s = apply_result kind v s

  unfoldable pub apply_completed_response :
      OfficialEndpointKind
      → JsonRpcResponse V
      → ℤ
      → AppServerState V P
      → OfficialEndpointTracker
      → AppServerState V P × OfficialEndpointTracker × Bool
  apply_completed_response kind r observed_at s t =
      let (applied, taken) = apply_response kind r.result s in
      if is_some r.error
      then (s, mark_failed t kind, false)
      else if taken
      then (applied, mark_live t kind observed_at, true)
      else (applied, mark_failed t kind, false)

-- The session, and whether some request failed or succeeded so far.
pub record Round (V P : Type 0) : Type 0 where
  pub session : Session V P
  pub failed : Bool
  pub succeeded : Bool

module _ {V P : Type 0} where
  unfoldable pub fail_endpoint : OfficialEndpointKind → Round V P → Round V P
  fail_endpoint kind r = record r {
    session = record r.session { tracker = mark_failed r.session.tracker kind };
    failed = true;
  }

  -- The first loop: a request that cannot be sent fails its endpoint.
  unfoldable pub send_request : OfficialEndpointKind → Reply V → Round V P → Round V P
  unfolding fail_endpoint
  send_request kind not_sent r = fail_endpoint kind r
  send_request kind _ r = r

  -- A response that was taken is a new revision; any other fails its endpoint once more.
  unfoldable pub count_completed :
      OfficialEndpointKind
      → Clock
      → AppServerState V P × OfficialEndpointTracker × Bool
      → Round V P
      → Round V P
  unfolding fail_endpoint
  count_completed kind clock (state, tracker, true) r = record r {
    session = record r.session {
      state = state;
      tracker = tracker;
      revision = saturating_add r.session.revision 1;
      last_data = some clock.instant;
    };
    succeeded = true;
  }
  count_completed kind clock (state, tracker, false) r =
      fail_endpoint kind
        (record r { session = record r.session { state = state; tracker = tracker } })

module _ {V P : Type 0} ⦃j : Json V⦄ ⦃f : F32 P⦄ (h : Host V P) where
  -- The second loop.
  unfoldable pub take_reply : OfficialEndpointKind → Clock → Reply V → Round V P → Round V P
  unfolding fail_endpoint count_completed
  take_reply kind clock not_sent r = r
  take_reply kind clock no_response r = fail_endpoint kind r
  take_reply kind clock (responded response) r =
      count_completed kind clock
        (apply_completed_response h kind response clock.unix_ms r.session.state r.session.tracker) r

  unfoldable pub round : Clock → Replies V → Session V P → Round V P
  round clock replies s =
      let first : Round V P = record { session = s; failed = false; succeeded = false } in
      let sent = send_request usage_endpoint replies.usage (
        send_request quota_endpoint replies.quota
          (send_request account_endpoint replies.account first)) in
      take_reply usage_endpoint clock replies.usage (
        take_reply quota_endpoint clock replies.quota
          (take_reply account_endpoint clock replies.account sent))

  unfoldable pub finish_refresh : Clock → (stale_after : ℕ) → Bool → Round V P → Session V P
  finish_refresh clock stale_after reset r = emit_with_reset h clock reset (record r.session {
    health = if r.failed then degraded else healthy;
    freshness =
        if r.succeeded then fresh else freshness_for r.session.last_data stale_after clock.instant;
  })

  unfoldable pub refresh : Clock → (stale_after : ℕ) → Replies V → Bool → Session V P → Session V P
  refresh clock stale_after replies reset s =
      finish_refresh clock stale_after reset (round clock replies s)
