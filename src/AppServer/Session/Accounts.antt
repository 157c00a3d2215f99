-- ===== src/AppServer/Session/Accounts.antt =====
-- What a session shows after a change of the account, and after its connection is lost.
use codex_quota_glance.Prelude.{
  ℕ, ◌≡◌, refl, ◌∙◌, if◌then◌else◌, List, [], ◌∷◌, Option, none, some, Bool, true, false, ◌&&◌,
  arith, inl, inr, ◌⊎◌, ◌≢◌,
}
use codex_quota_glance.Prelude.F32.{F32}
use codex_quota_glance.Domain.Official.{
  OfficialEndpointStatus, live, cached_status, refresh_aggregate_freshness,
}
use codex_quota_glance.AppServer.Json.{Json}
use codex_quota_glance.AppServer.State.{AppServerState}
use codex_quota_glance.AppServer.State.Project.{official_snapshot_with_status}
use codex_quota_glance.AppServer.Session.{
  Session, SessionUpdate, Clock, Host, SourceHealth, OfficialEndpointTracker, mark_all_cached,
  emitted, emit_with_reset,
}
use codex_quota_glance.AppServer.Session.Events.{
  SessionConfig, Event, ready_event, startup_failed, reached_eof, io_error, closed, protocol_error,
  unexpected_response, elapsed, channel_gone, notification, Input, Loop, Exit,
  resets_account_generation, method_of, reset_account_generation, publish_notification, notify,
  leave_with, refreshed, elapse, on_event, stop_session, step, run_transport,
}

module _ {V P : Type 0} ⦃j : Json V⦄ ⦃f : F32 P⦄ (h : Host V P) (c : SessionConfig) where
  -- After a notification that the account changed, nothing of the old account is left: sessions
  -- that differ only in what they held and in their endpoints become the same, and publish the
  -- same update.
  pub notify_noninterference :
      (input : Input V) (message : V) (l : Loop V P) (a : AppServerState V P)
      (t : OfficialEndpointTracker)
      → resets_account_generation (method_of h c message) ≡ true
      → notify h c input message
          (record l { session = record l.session { state = a; tracker = t } })
        ≡ notify h c input message l
  unfolding notify reset_account_generation
  notify_noninterference input message l a t e = rw e refl

cached-ne-live : (s : OfficialEndpointStatus) → (cached_status s).freshness ≢ live
unfolding cached_status
cached-ne-live s = ground arith

module _ {V P : Type 0} where
  -- An update that shows no endpoint as live.
  abbrev pub NoneLive : SessionUpdate V P → Type 0
  NoneLive u =
      (u.official.account_status.freshness ≢ live)
      × ((u.official.quota_status.freshness ≢ live) × (u.official.usage_status.freshness ≢ live))

  -- Something was published, and last an update that shows no endpoint as live.
  abbrev pub LastNoneLive : List (SessionUpdate V P) → Type 0
  LastNoneLive updates =
      (u : SessionUpdate V P) × ((earlier : List (SessionUpdate V P)) × ((updates ≡ u ∷ earlier)
          × NoneLive u))

module _ {V P : Type 0} ⦃j : Json V⦄ ⦃f : F32 P⦄ (h : Host V P) (c : SessionConfig) where
  -- A loop that returned has last published an update that shows no endpoint as live.
  abbrev AllCached : Loop V P → Type 0
  AllCached l = (l.exit ≡ none) ⊎ LastNoneLive l.session.updates

  -- What is published once every endpoint was marked as cached.
  emitted-NoneLive :
      (clock : Clock) (s : Session V P) (t : OfficialEndpointTracker)
      → s.tracker ≡ mark_all_cached t
      → NoneLive (emitted h clock false s)
  unfolding emitted official_snapshot_with_status mark_all_cached refresh_aggregate_freshness
      cached_status
  emitted-NoneLive clock s t e =
      rw e ((cached-ne-live t.account, (cached-ne-live t.quota, cached-ne-live t.usage)))

  emit-LastNoneLive :
      (clock : Clock) (s : Session V P) (t : OfficialEndpointTracker)
      → s.tracker ≡ mark_all_cached t
      → LastNoneLive (emit_with_reset h clock false s).updates
  unfolding emit_with_reset
  emit-LastNoneLive clock s t e =
      (emitted h clock false s, (s.updates, (refl, emitted-NoneLive clock s t e)))

  leave_with-AllCached :
      (becomes : SourceHealth) (exit : Exit) (input : Input V) (l : Loop V P)
      → AllCached (leave_with h c becomes exit input l)
  unfolding leave_with
  leave_with-AllCached becomes exit input l =
      inr (emit-LastNoneLive input.clock _ l.session.tracker refl)

  refreshed-exit : (input : Input V) (l : Loop V P) → (refreshed h c input l).exit ≡ l.exit
  unfolding refreshed
  refreshed-exit input l = refl

  notify-exit :
      (input : Input V) (message : V) (l : Loop V P) → (notify h c input message l).exit ≡ l.exit
  unfolding notify publish_notification
  notify-exit input message l = ground arith

  elapse-exit : (input : Input V) (l : Loop V P) → (elapse h c input l).exit ≡ l.exit
  unfolding elapse refreshed
  elapse-exit input l = ground arith

  on_event-AllCached :
      (input : Input V) (e : Event V) (l : Loop V P)
      → l.exit ≡ none
      → AllCached (on_event h c input e l)
  unfolding on_event
  on_event-AllCached input ready_event l n = inl (refreshed-exit input _ ∙ n)
  on_event-AllCached input (notification message) l n = inl (notify-exit input message l ∙ n)
  on_event-AllCached input startup_failed l n = leave_with-AllCached _ _ input l
  on_event-AllCached input reached_eof l n = leave_with-AllCached _ _ input l
  on_event-AllCached input io_error l n = leave_with-AllCached _ _ input l
  on_event-AllCached input closed l n = leave_with-AllCached _ _ input l
  on_event-AllCached input protocol_error l n = inl n
  on_event-AllCached input unexpected_response l n = inl n
  on_event-AllCached input elapsed l n = inl (elapse-exit input l ∙ n)
  on_event-AllCached input channel_gone l n = leave_with-AllCached _ _ input l

  stop_session-AllCached : (input : Input V) (l : Loop V P) → AllCached (stop_session h c input l)
  unfolding stop_session
  stop_session-AllCached input l = inr (emit-LastNoneLive input.clock _ l.session.tracker refl)

  -- The round, for any outcome of its two tests.
  round-AllCached :
      (stops refreshes : Bool) (input : Input V) (l : Loop V P)
      → l.exit ≡ none
      → AllCached (
          if stops
          then stop_session h c input l
          else on_event h c input input.event (if refreshes then refreshed h c input l else l))
  round-AllCached true refreshes input l n = stop_session-AllCached input l
  round-AllCached false true input l n =
      on_event-AllCached input input.event (refreshed h c input l) (refreshed-exit input l ∙ n)
  round-AllCached false false input l n = on_event-AllCached input input.event l n

  step-AllCached :
      (input : Input V) (o : Option Exit) (l : Loop V P)
      → l.exit ≡ o
      → AllCached l
      → AllCached (step h c input o l)
  unfolding step
  step-AllCached input (some exit) l e a = a
  step-AllCached input none l e a =
      round-AllCached input.cancelled (input.is_ready && input.refresh_requested) input l e

  inputs-AllCached :
      (inputs : List (Input V)) (l : Loop V P)
      → AllCached l
      → AllCached (run_transport h c inputs l)
  unfolding run_transport
  inputs-AllCached [] l a = a
  inputs-AllCached (input ∷ inputs) l a =
      inputs-AllCached inputs (step h c input l.exit l) (step-AllCached input l.exit l refl a)

  -- Whatever the transport delivers, once `run_transport` has returned, the update that it
  -- published last shows no endpoint as live.
  pub run_transport-AllCached :
      (inputs : List (Input V)) (s : Session V P) (next : ℕ)
      → let l =
          run_transport h c inputs (record { session = s; next_refresh = next; exit = none }) in
        (l.exit ≡ none) ⊎ LastNoneLive l.session.updates
  run_transport-AllCached inputs s next =
      inputs-AllCached inputs (record { session = s; next_refresh = next; exit = none }) (inl refl)
