-- ===== src/AppServer/Session/Rounds.antt =====
-- What a whole refresh makes of the three endpoints.
use codex_quota_glance.Prelude.{
  ℕ, ◌≡◌, refl, sym, if◌then◌else◌, ◌∷◌, Bool, true, false, ◌&&◌, ◌||◌, not, arith,
}
use codex_quota_glance.Prelude.Int.{ℤ}
use codex_quota_glance.Prelude.F32.{F32}
use codex_quota_glance.Domain.Official.{OfficialEndpointStatus, cached_status}
use codex_quota_glance.AppServer.Json.{Json}
use codex_quota_glance.AppServer.State.{AppServerState}
use codex_quota_glance.AppServer.Session.{
  Session, Host, Clock, healthy, degraded, OfficialEndpointKind, account_endpoint, quota_endpoint,
  usage_endpoint, OfficialEndpointTracker, status, with_status, mark_failed, emitted,
  emit_with_reset,
}
use codex_quota_glance.AppServer.Session.Refresh.{
  Reply, not_sent, no_response, responded, Replies, Round, fail_endpoint, send_request,
  count_completed, take_reply, round, finish_refresh, refresh,
}
use codex_quota_glance.AppServer.Session.Endpoints.{
  accepted, next_status, reply_of, was_sent, settled, with_status_same, take_reply_lem,
}

module _ {V : Type 0} where
  -- What the first loop makes of a status.
  sent : Reply V → OfficialEndpointStatus → OfficialEndpointStatus
  sent not_sent s = cached_status s
  sent _ s = s

module _ {V P : Type 0} where
  send_request_lem :
      (kind : OfficialEndpointKind) (reply : Reply V) (r : Round V P)
      → ((send_request kind reply r).session.tracker
          ≡ with_status r.session.tracker kind (sent reply (status r.session.tracker kind)))
        × ((send_request kind reply r).failed ≡ (r.failed || not (was_sent reply)))
        × ((send_request kind reply r).succeeded ≡ r.succeeded)
        × ((send_request kind reply r).session.updates ≡ r.session.updates)
  unfolding send_request fail_endpoint mark_failed sent
  send_request_lem kind not_sent r = (refl, ground arith, refl, refl)
  send_request_lem kind no_response r =
      (sym (with_status_same r.session.tracker kind), ground arith, refl, refl)
  send_request_lem kind (responded _) r =
      (sym (with_status_same r.session.tracker kind), ground arith, refl, refl)

module _ {V : Type 0} ⦃j : Json V⦄ where
  sent-settled :
      (kind : OfficialEndpointKind) (reply : Reply V) (now : ℤ) (s : OfficialEndpointStatus)
      → settled kind reply now (sent reply s) ≡ next_status kind reply now s
  unfolding sent settled accepted
  sent-settled kind not_sent now s = refl
  sent-settled kind no_response now s = refl
  sent-settled kind (responded r) now s = refl

  sent-failed :
      (kind : OfficialEndpointKind) (reply : Reply V)
      → (not (was_sent reply) || (was_sent reply && not (accepted kind reply)))
        ≡ not (accepted kind reply)
  unfolding accepted
  sent-failed kind not_sent = refl
  sent-failed kind no_response = refl
  sent-failed kind (responded r) = ground arith

  abbrev pub all_accepted : Replies V → Bool
  all_accepted r =
      accepted account_endpoint r.account
      && (accepted quota_endpoint r.quota && accepted usage_endpoint r.usage)

module _ {V P : Type 0} ⦃j : Json V⦄ ⦃f : F32 P⦄ (h : Host V P) where
  count_completed-updates :
      (kind : OfficialEndpointKind) (clock : Clock)
      (x : AppServerState V P × OfficialEndpointTracker × Bool) (r : Round V P)
      → (count_completed kind clock x r).session.updates ≡ r.session.updates
  unfolding count_completed
  count_completed-updates kind clock (s, t, true) r = refl
  count_completed-updates kind clock (s, t, false) r = refl

  take_reply-updates :
      (kind : OfficialEndpointKind) (clock : Clock) (reply : Reply V) (r : Round V P)
      → (take_reply h kind clock reply r).session.updates ≡ r.session.updates
  unfolding take_reply
  take_reply-updates kind clock not_sent r = refl
  take_reply-updates kind clock no_response r = refl
  take_reply-updates kind clock (responded response) r = count_completed-updates kind clock _ r

  round_lem :
      (clock : Clock) (replies : Replies V) (s : Session V P) (kind : OfficialEndpointKind)
      → (status (round h clock replies s).session.tracker kind
          ≡ next_status kind (reply_of kind replies) clock.unix_ms (status s.tracker kind))
        × ((round h clock replies s).failed ≡ not (all_accepted replies))
        × ((round h clock replies s).session.updates ≡ s.updates)
  unfolding round status with_status reply_of
  round_lem clock replies s kind =
      let r0 : Round V P = record { session = s; failed = false; succeeded = false } in
      let r1 = send_request account_endpoint replies.account r0 in
      let r2 = send_request quota_endpoint replies.quota r1 in
      let r3 = send_request usage_endpoint replies.usage r2 in
      let r4 = take_reply h account_endpoint clock replies.account r3 in
      let r5 = take_reply h quota_endpoint clock replies.quota r4 in
      ground (
        arith,
        send_request_lem account_endpoint replies.account r0,
        send_request_lem quota_endpoint replies.quota r1,
        send_request_lem usage_endpoint replies.usage r2,
        take_reply_lem h account_endpoint clock replies.account r3,
        take_reply_lem h quota_endpoint clock replies.quota r4,
        take_reply_lem h usage_endpoint clock replies.usage r5,
        take_reply-updates account_endpoint clock replies.account r3,
        take_reply-updates quota_endpoint clock replies.quota r4,
        take_reply-updates usage_endpoint clock replies.usage r5,
        sent-settled account_endpoint replies.account clock.unix_ms s.tracker.account,
        sent-settled quota_endpoint replies.quota clock.unix_ms s.tracker.quota,
        sent-settled usage_endpoint replies.usage clock.unix_ms s.tracker.usage,
        sent-failed account_endpoint replies.account,
        sent-failed quota_endpoint replies.quota,
        sent-failed usage_endpoint replies.usage,
      )

  -- After a refresh each endpoint is live if its own request was answered with a result that can
  -- be taken, and otherwise keeps what it had, as cached, whatever became of the other two. The
  -- session is healthy exactly if all three were taken, and one update is published, which shows
  -- the state after all three.
  pub refresh_lem :
      (clock : Clock) (stale_after : ℕ) (replies : Replies V) (reset : Bool) (s : Session V P)
      (kind : OfficialEndpointKind)
      → (status (refresh h clock stale_after replies reset s).tracker kind
          ≡ next_status kind (reply_of kind replies) clock.unix_ms (status s.tracker kind))
        × ((refresh h clock stale_after replies reset s).health
            ≡ (if all_accepted replies then healthy else degraded))
        × ((refresh h clock stale_after replies reset s).updates
            ≡ emitted h clock reset (refresh h clock stale_after replies reset s) ∷ s.updates)
  unfolding refresh finish_refresh emit_with_reset emitted
  refresh_lem clock stale_after replies reset s kind =
      let (tracker_is, failed_is, updates_are) = round_lem clock replies s kind in
      (tracker_is, ground (arith, failed_is), rw updates_are refl)
