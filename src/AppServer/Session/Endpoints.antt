-- ===== src/AppServer/Session/Endpoints.antt =====
-- What a refresh makes of each endpoint.
use codex_quota_glance.Prelude.{
  sym, ◌≡◌, refl, if◌then◌else◌, Option, none, some, Bool, true, false, ◌&&◌, ◌||◌, not, is_some,
  arith,
}
use codex_quota_glance.Prelude.Int.{ℤ}
use codex_quota_glance.Prelude.F32.{F32}
use codex_quota_glance.Domain.Official.{OfficialEndpointStatus, live_status, cached_status}
use codex_quota_glance.AppServer.Json.{Json}
use codex_quota_glance.AppServer.Codec.Decode.{JsonRpcResponse}
use codex_quota_glance.AppServer.State.{AppServerState, RateLimitsSnapshot}
use codex_quota_glance.AppServer.State.Replace.{
  preferred_rate_limit_object, replace_rate_limits, replace_limits_of, replace_account_usage,
}
use codex_quota_glance.AppServer.Session.{
  Host, Clock, OfficialEndpointKind, account_endpoint, quota_endpoint, usage_endpoint,
  OfficialEndpointTracker, status, with_status, mark_live, mark_failed,
}
use codex_quota_glance.AppServer.Session.Refresh.{
  Reply, not_sent, no_response, responded, Replies, valid_account, has_summary, apply_result,
  apply_response, apply_completed_response, Round, count_completed, take_reply,
}

abbrev pub was_sent : {V : Type 0} → Reply V → Bool
was_sent not_sent = false
was_sent _ = true

module _ {V : Type 0} ⦃j : Json V⦄ where
  -- Whether a result can be taken, whatever the session holds.
  unfoldable pub acceptable : OfficialEndpointKind → V → Bool
  acceptable account_endpoint v = valid_account v
  acceptable quota_endpoint v = is_some (preferred_rate_limit_object v)
  acceptable usage_endpoint v = has_summary v

  abbrev acceptable_result : OfficialEndpointKind → Option V → Bool
  acceptable_result kind none = false
  acceptable_result kind (some v) = acceptable kind v

  unfoldable pub accepted : OfficialEndpointKind → Reply V → Bool
  accepted kind not_sent = false
  accepted kind no_response = false
  accepted kind (responded r) = not (is_some r.error) && acceptable_result kind r.result

  -- What an endpoint's own reply makes of its status.
  abbrev pub next_status :
      OfficialEndpointKind → Reply V → ℤ → OfficialEndpointStatus → OfficialEndpointStatus
  next_status kind reply now s = if accepted kind reply then live_status now else cached_status s

  unfoldable pub reply_of : OfficialEndpointKind → Replies V → Reply V
  reply_of account_endpoint r = r.account
  reply_of quota_endpoint r = r.quota
  reply_of usage_endpoint r = r.usage

  -- What a reply makes of the status of its endpoint, after the first loop.
  unfoldable pub settled :
      OfficialEndpointKind → Reply V → ℤ → OfficialEndpointStatus → OfficialEndpointStatus
  settled kind not_sent now s = s
  settled kind no_response now s = cached_status s
  settled kind (responded r) now s = next_status kind (responded r) now s

pub cached_twice : (s : OfficialEndpointStatus) → cached_status (cached_status s) ≡ cached_status s
unfolding cached_status
cached_twice s = ground arith

pub with_status_same :
    (t : OfficialEndpointTracker) (kind : OfficialEndpointKind)
    → with_status t kind (status t kind) ≡ t
unfolding with_status status
with_status_same t account_endpoint = refl
with_status_same t quota_endpoint = refl
with_status_same t usage_endpoint = refl

with_status_twice :
    (t : OfficialEndpointTracker) (kind : OfficialEndpointKind) (a b : OfficialEndpointStatus)
    → (with_status (with_status t kind a) kind b ≡ with_status t kind b)
      × (status (with_status t kind a) kind ≡ a)
unfolding with_status status
with_status_twice t account_endpoint a b = (refl, refl)
with_status_twice t quota_endpoint a b = (refl, refl)
with_status_twice t usage_endpoint a b = (refl, refl)

module _ {V P : Type 0} ⦃j : Json V⦄ ⦃f : F32 P⦄ (h : Host V P) where
  replaced :
      (r : RateLimitsSnapshot V P) (v : V) (o : Option V)
      → (replace_limits_of h.as_percent r v o).1 ≡ is_some o
  unfolding replace_limits_of
  replaced r v none = refl
  replaced r v (some object) = refl

  apply_result-taken :
      (kind : OfficialEndpointKind) (v : V) (s : AppServerState V P)
      → (apply_result h kind v s).1 ≡ acceptable kind v
  unfolding apply_result acceptable
  apply_result-taken account_endpoint v s = ground arith
  apply_result-taken quota_endpoint v s =
      unfold replace_rate_limits in replaced s.rate_limits v (preferred_rate_limit_object v)
  apply_result-taken usage_endpoint v s = unfold has_summary replace_account_usage in ground arith

  apply_response-taken :
      (kind : OfficialEndpointKind) (o : Option V) (s : AppServerState V P)
      → (apply_response h kind o s).1 ≡ acceptable_result kind o
  unfolding apply_response
  apply_response-taken kind none s = refl
  apply_response-taken kind (some v) s = apply_result-taken kind v s

  -- The status of an endpoint, by whether its response was taken.
  abbrev by_flag : Bool → ℤ → OfficialEndpointStatus → OfficialEndpointStatus
  by_flag taken now s = if taken then live_status now else cached_status s

  completed_lem :
      (kind : OfficialEndpointKind) (r : JsonRpcResponse V) (now : ℤ) (s : AppServerState V P)
      (t : OfficialEndpointTracker)
      → ((apply_completed_response h kind r now s t).1
          ≡ with_status t kind (by_flag (accepted kind (responded r)) now (status t kind)))
        × ((apply_completed_response h kind r now s t).2 ≡ accepted kind (responded r))
  unfolding apply_completed_response accepted mark_live mark_failed
  completed_lem kind r now s t = ground (arith, apply_response-taken kind r.result s)

  count_completed_lem :
      (kind : OfficialEndpointKind) (clock : Clock)
      (x : AppServerState V P × OfficialEndpointTracker × Bool) (r : Round V P) (taken : Bool)
      → x.1
        ≡ with_status r.session.tracker kind
            (by_flag taken clock.unix_ms (status r.session.tracker kind))
      → x.2 ≡ taken
      → ((count_completed kind clock x r).session.tracker
          ≡ with_status r.session.tracker kind
              (by_flag taken clock.unix_ms (status r.session.tracker kind)))
        × ((count_completed kind clock x r).failed ≡ (r.failed || not taken))
        × ((count_completed kind clock x r).succeeded ≡ (r.succeeded || taken))
  unfolding count_completed mark_failed
  count_completed_lem kind clock (state, tracker, true) r taken e k = ground arith
  count_completed_lem kind clock (state, tracker, false) r taken e k = ground (
    arith,
    with_status_twice r.session.tracker kind (cached_status (status r.session.tracker kind))
        (cached_status (cached_status (status r.session.tracker kind))),
    cached_twice (status r.session.tracker kind),
  )

  pub take_reply_lem :
      (kind : OfficialEndpointKind) (clock : Clock) (reply : Reply V) (r : Round V P)
      → ((take_reply h kind clock reply r).session.tracker
          ≡ with_status r.session.tracker kind
              (settled kind reply clock.unix_ms (status r.session.tracker kind)))
        × ((take_reply h kind clock reply r).failed
            ≡ (r.failed || (was_sent reply && not (accepted kind reply))))
        × ((take_reply h kind clock reply r).succeeded ≡ (r.succeeded || accepted kind reply))
  unfolding take_reply settled accepted
  take_reply_lem kind clock not_sent r =
      (sym (with_status_same r.session.tracker kind), ground arith, ground arith)
  take_reply_lem kind clock no_response r = (unfold mark_failed in refl, ground arith, ground arith)
  take_reply_lem kind clock (responded response) r =
      let (tracker_is, flag_is) =
        completed_lem kind response clock.unix_ms r.session.state r.session.tracker in
      count_completed_lem kind clock
        (apply_completed_response h kind response clock.unix_ms r.session.state r.session.tracker) r
        (accepted kind (responded response)) tracker_is flag_is
