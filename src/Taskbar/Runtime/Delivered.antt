-- ===== src/Taskbar/Runtime/Delivered.antt =====
-- apps/codex-taskbar/src/official_runtime.rs: what the loop lets change the quota windows and the
-- official data.
use codex_quota_glance.Prelude.{
  ◌-◌, ◌≡◌, refl, ap, ◌∙◌, sym, leb, if◌then◌else◌, List, [], ◌∷◌, ◌++◌, Option, none, some, Bool,
  ◌&&◌, ◌||◌, true, false, Bool-cases, inl, inr,
}
use codex_quota_glance.Application.Monitor.{MonitorState}
use codex_quota_glance.Application.Coordinator.{TelemetryUpdate, run}
use codex_quota_glance.Application.Coordinator.Authority.{
  authority, run-authority, apply_activity-authority, apply_usage-authority, apply_today-authority,
}
use codex_quota_glance.Application.Ledger.Books.{LocalUsageClock, observe, today_counts}
use codex_quota_glance.Settings.Config.{AppConfig}
use codex_quota_glance.AppServer.Session.{SessionUpdate}
use codex_quota_glance.Taskbar.Sessions.Events.{SessionTokenEvent}
use codex_quota_glance.Taskbar.Sessions.Tailer.{SessionTokenBatch}
use codex_quota_glance.Taskbar.Runtime.Updates.{session_updates, apply_session_update}
use codex_quota_glance.Taskbar.Runtime.Fallback.{
  FallbackSnapshot, Books, counters, has_tokens, fallback_usage, is_no_source, has_live_usage,
  apply_fallback_tokens, apply_local_today_usage, apply_state_snapshot, apply_history,
  apply_fallback,
}
use codex_quota_glance.Taskbar.Runtime.Lease.{is_live_at}
use codex_quota_glance.Taskbar.Runtime.Steps.{
  Runtime, Clocks, HostCall, last_of, session_usage, receive_update, take_update, look_back,
  fallback_step, fallback_poll_interval, show_event, show_events, take_batch, session_step,
  session_token_poll_interval, reload_step, flush_step, local_ledger_flush_interval,
}
use codex_quota_glance.Taskbar.Runtime.Relation.{run-append}
use codex_quota_glance.Taskbar.Runtime.Rounds.{
  Round, finish_round, after_session, round, run_rounds,
}

module _ {P : Type 0} where
  apply_fallback_tokens-authority :
      (s : MonitorState P) (n : FallbackSnapshot)
      → authority (apply_fallback_tokens s n) ≡ authority s
  unfolding apply_fallback_tokens
  apply_fallback_tokens-authority s n = elim (Bool-cases (has_tokens n)) [
    | inl e ↦ rw e (apply_usage-authority s (fallback_usage n))
    | inr e ↦ rw e refl
  ]

  -- One of two states with the same authority.
  either-authority :
      (b : Bool) (s t u : MonitorState P)
      → authority s ≡ authority u
      → authority t ≡ authority u
      → authority (if b then s else t) ≡ authority u
  either-authority true s t u h k = h
  either-authority false s t u h k = k

  apply_local_today_usage-authority :
      (clock : LocalUsageClock) (n : FallbackSnapshot) (b : Books P)
      → authority (apply_local_today_usage clock n b).0 ≡ authority b.0
  unfolding apply_local_today_usage
  apply_local_today_usage-authority clock n b =
      let seen = observe b.1 clock (counters n) in
      either-authority (seen.1 || is_no_source b.0.token_usage.today_source) _ b.0 b.0
        (apply_today-authority b.0 (today_counts seen.0 clock.day_key) n.observed_at_unix_ms) refl

  apply_state_snapshot-authority :
      (healthy today_known : Bool) (clock : LocalUsageClock) (x : Option FallbackSnapshot)
      (b : Books P)
      → authority (apply_state_snapshot healthy today_known clock x b).0 ≡ authority b.0
  unfolding apply_state_snapshot
  apply_state_snapshot-authority healthy today_known clock none b = refl
  apply_state_snapshot-authority healthy true clock (some n) b =
      either-authority (has_live_usage b.0 healthy) b.0 (apply_fallback_tokens b.0 n) b.0 refl
        (apply_fallback_tokens-authority b.0 n)
  apply_state_snapshot-authority healthy false clock (some n) b =
      let after = (apply_local_today_usage clock n b).0 in
      let kept = apply_local_today_usage-authority clock n b in
      either-authority (has_live_usage after healthy) after (apply_fallback_tokens after n) b.0 kept
        (apply_fallback_tokens-authority after n ∙ kept)

  apply_history-authority :
      (live : Bool) (x : Option FallbackSnapshot) (s : MonitorState P)
      → authority (apply_history live x s) ≡ authority s
  unfolding apply_history
  apply_history-authority true x s = refl
  apply_history-authority false none s = refl
  apply_history-authority false (some n) s =
      apply_activity-authority s (n.activity ∷ []) n.observed_at_unix_ms

  look_back-authority :
      (c : Clocks) (x : Option (Option FallbackSnapshot × Option FallbackSnapshot)) (r : Runtime P)
      → authority (look_back c x r).0.coordinator ≡ authority r.coordinator
  unfolding look_back apply_fallback
  look_back-authority c none r = refl
  look_back-authority c (some found) r =
      apply_history-authority (is_live_at r.app_server_activity c.instant) found.1 _
      ∙ apply_state_snapshot-authority r.authoritative_healthy r.session_today_authoritative c.local
          found.0 (r.coordinator, r.ledger)

  fallback_step-authority :
      (c : Clocks) (x : Option (Option FallbackSnapshot × Option FallbackSnapshot)) (r : Runtime P)
      → authority (fallback_step c x r).0.coordinator ≡ authority r.coordinator
  unfolding fallback_step
  fallback_step-authority c x r =
      elim (Bool-cases (leb (fallback_poll_interval r.settings) (c.instant - r.last_fallback))) [
        | inl e ↦ rw e (look_back-authority c x (record r { last_fallback = c.instant }))
        | inr e ↦ rw e refl
      ]

  show_events-authority :
      (c : Clocks) (batch : SessionTokenBatch) (es : List SessionTokenEvent) (r : Runtime P)
      → authority (show_events c batch es r).0.coordinator ≡ authority r.coordinator
  unfolding show_events show_event
  show_events-authority c batch [] r = refl
  show_events-authority c batch (e ∷ es) r =
      apply_today-authority _ (today_counts r.ledger c.local.day_key) c.later
      ∙ apply_usage-authority r.coordinator (session_usage (last_of e es) c.now)

  take_batch-authority :
      (c : Clocks) (x : Option SessionTokenBatch) (r : Runtime P)
      → authority (take_batch c x r).0.coordinator ≡ authority r.coordinator
  unfolding take_batch
  take_batch-authority c none r = refl
  take_batch-authority c (some batch) r = show_events-authority c batch batch.events _

  session_step-authority :
      (c : Clocks) (x : Option SessionTokenBatch) (r : Runtime P)
      → authority (session_step c x r).0.coordinator ≡ authority r.coordinator
  unfolding session_step
  session_step-authority c x r =
      elim (Bool-cases (leb session_token_poll_interval (c.instant - r.last_session_token_poll))) [
        | inl e ↦ rw e (take_batch-authority c x (record r { last_session_token_poll = c.instant }))
        | inr e ↦ rw e refl
      ]

  reload_step-coordinator :
      (x : Option AppConfig) (r : Runtime P) → (reload_step x r).0.coordinator ≡ r.coordinator
  unfolding reload_step
  reload_step-coordinator none r = refl
  reload_step-coordinator (some next) r = refl

  flush_step-coordinator :
      (c : Clocks) (saved : Bool) (r : Runtime P)
      → (flush_step c saved r).coordinator ≡ r.coordinator
  unfolding flush_step
  flush_step-coordinator c saved r =
      elim (Bool-cases
        (r.ledger.dirty && leb local_ledger_flush_interval (c.instant - r.last_ledger_flush))) [
          | inl e ↦ rw e refl
          | inr e ↦ rw e refl
        ]

module _ {V P : Type 0} where
  -- The updates of the coordinator that a round's message of the app server stands for.
  abbrev pub received : Clocks → Option (SessionUpdate V P) → List (TelemetryUpdate P)
  received c none = []
  received c (some u) = session_updates u c.now c.later

  -- Those of the rounds that the loop makes.
  unfoldable pub delivered : List (Round V P) → Runtime P → List (TelemetryUpdate P)
  delivered [] r = []
  delivered (x ∷ xs) r =
      let rest = delivered xs (round x r).runtime in
      received x.at_update x.update ++ (if (round x r).goes_on then rest else [])

  receive_update-run :
      (c : Clocks) (x : Option (SessionUpdate V P)) (r : Runtime P)
      → (receive_update c x r).0.coordinator ≡ run r.coordinator (received c x)
  unfolding receive_update take_update apply_session_update run
  receive_update-run c none r = refl
  receive_update-run c (some u) r = refl

  after_session-coordinator :
      (x : Round V P) (calls : List (HostCall P)) (r : Runtime P) (skipped : Bool)
      → (after_session x calls r skipped).runtime.coordinator ≡ r.coordinator
  unfolding after_session finish_round
  after_session-coordinator x calls r true = refl
  after_session-coordinator x calls r false =
      flush_step-coordinator x.at_flush x.saved (reload_step x.loaded r).0
      ∙ reload_step-coordinator x.loaded r

  round-authority :
      (x : Round V P) (r : Runtime P)
      → authority (round x r).runtime.coordinator
        ≡ authority (run r.coordinator (received x.at_update x.update))
  unfolding round
  round-authority x r =
      let taken = (receive_update x.at_update x.update r).0 in
      let looked = (fallback_step x.at_fallback x.found taken).0 in
      let listened = (session_step x.at_session x.batch looked).0 in
      ap authority (after_session-coordinator x _ listened _)
      ∙ session_step-authority x.at_session x.batch looked
      ∙ fallback_step-authority x.at_fallback x.found taken
      ∙ ap authority (receive_update-run x.at_update x.update r)

  rounds-authority :
      (xs : List (Round V P)) (r : Runtime P)
      → authority (run_rounds xs r).coordinator ≡ authority (run r.coordinator (delivered xs r))
  unfolding run_rounds delivered run
  rounds-authority [] r = refl
  rounds-authority (x ∷ xs) r =
      let got = received x.at_update x.update in
      let next = (round x r).runtime in
      let step = round-authority x r in
      elim (Bool-cases (round x r).goes_on) [
        | inl e ↦ rw e (
            rounds-authority xs next
            ∙ run-authority next.coordinator (run r.coordinator got) (delivered xs next) step
            ∙ ap authority (sym (run-append r.coordinator got (delivered xs next))))
        | inr e ↦ rw e (step ∙ ap authority (sym (run-append r.coordinator got [])))
      ]

-- After any rounds of the loop both quota windows, the official data, and the time and the revision
-- that they are of, are what the coordinator makes of the messages of the app server alone, each
-- taken once and in order, in the rounds up to the one that ends the loop: no database, session
-- log, reload or action of the user changes them, and no message is dropped.
pub run_rounds-delivered :
    {V P : Type 0}
    → (xs : List (Round V P)) (r : Runtime P)
    → authority (run_rounds xs r).coordinator ≡ authority (run r.coordinator (delivered xs r))
run_rounds-delivered xs r = rounds-authority xs r
