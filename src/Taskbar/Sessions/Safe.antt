-- ===== src/Taskbar/Sessions/Safe.antt =====
-- The models that events name are short identifiers.
pub mod Lines
use codex_quota_glance.Taskbar.Sessions.Safe.Lines.{IsSafe, AreSafe, read_token_events-Safe}
use codex_quota_glance.Prelude.{
  ℕ, ◌≡◌, if◌then◌else◌, List, [], ◌∷◌, All, All-append, ◌||◌, Option, none, some, Bool, true,
  false, not, or_else, String, arith, Bool-cases, inl, inr, ◌>>=◌,
}
use codex_quota_glance.Prelude.Int.{ℤ}
use codex_quota_glance.Domain.Usage.{TokenCounts}
use codex_quota_glance.AppServer.Json.{Json}
use codex_quota_glance.Taskbar.Sessions.Events.{
  SessionTokenEvent, Host, safe_model_identifier, only_safe, turn_context_model, token_event_model,
  token_counts, is_text, type_of,
}
use codex_quota_glance.Taskbar.Sessions.Files.{Names}
use codex_quota_glance.Taskbar.Sessions.Reading.{
  Marked, ParsedTokenEvents, count_event, take_counts, take_model, take_value, take_line,
  take_lines, read_text, read_bytes, read_token_events, lines, is_candidate,
}
use codex_quota_glance.Taskbar.Sessions.Tailer.{
  SessionTokenTailer, World, is_day, is_new, take_new, batch_if_any, should_discover, read_file,
  read_files, begin_day, discover, read_current, poll,
}
use codex_quota_glance.Taskbar.Sessions.Once.{poll_day}
use codex_quota_glance.Taskbar.Sessions.Once.Fresh.{events_of, events_of-batch_if_any}

cons_if-Safe :
    (b : Bool) (e : SessionTokenEvent) (events : List SessionTokenEvent)
    → IsSafe e.model
    → AreSafe events
    → AreSafe (if b then e ∷ events else events)
cons_if-Safe true e events h s = (h, s)
cons_if-Safe false e events h s = s

take_new-Safe :
    (day_key : ℤ) (ms : List Marked) (seen : List ℕ)
    → All (λ m. IsSafe m.1.model) ms
    → AreSafe (take_new day_key seen ms).1
unfolding take_new
take_new-Safe day_key [] seen s = tt
take_new-Safe day_key (m ∷ ms) seen s =
    cons_if-Safe (is_new day_key seen m) m.1 _ s.0 (take_new-Safe day_key ms _ s.1)

-- The tailer's model and the events.
abbrev TailerSafe : SessionTokenTailer → List SessionTokenEvent → Type 0
TailerSafe t events = IsSafe t.current_model × AreSafe events

batch_if_any-Safe :
    (events : List SessionTokenEvent) → AreSafe events → AreSafe (events_of (batch_if_any events))
batch_if_any-Safe events s = rw events_of-batch_if_any s

module _ {V : Type 0} ⦃j : Json V⦄ (h : Host V) (n : Names) where
  read_files-Safe :
      (w : World) (day_key : ℤ) (hour : ℕ) (paths : List String) (t : SessionTokenTailer)
      (events : List SessionTokenEvent)
      → TailerSafe t events
      → TailerSafe
          (read_files h n w day_key hour paths (t, events)).0
          (read_files h n w day_key hour paths (t, events)).1
  unfolding read_files read_file
  read_files-Safe w day_key hour [] t events s = s
  read_files-Safe w day_key hour (path ∷ paths) t events s =
      let parsed = read_token_events h w.today hour (w.content path) false t.current_model in
      let safe = read_token_events-Safe h w.today hour (w.content path) false t.current_model s.0 in
      read_files-Safe w day_key hour paths (read_file h n w day_key hour path (t, events)).0
        (read_file h n w day_key hour path (t, events)).1
        (
          safe.0,
          All-append (λ (e : SessionTokenEvent). IsSafe e.model) events _ s.1
              (take_new-Safe day_key parsed.events t.seen_fingerprints safe.1),
        )

  read_current-Safe :
      (w : World) (day_key : ℤ) (hour : ℕ) (full : Bool) (path : Option String)
      (t : SessionTokenTailer)
      → IsSafe t.current_model
      → TailerSafe
          (read_current h n w day_key hour full path t).0
          (events_of (read_current h n w day_key hour full path t).1)
  unfolding read_current
  read_current-Safe w day_key hour full none t s = (s, tt)
  read_current-Safe w day_key hour full (some path) t s =
      let parsed = read_token_events h w.today hour (w.content path) (not full) t.current_model in
      let safe =
        read_token_events-Safe h w.today hour (w.content path) (not full) t.current_model s in
      (safe.0, batch_if_any-Safe _ (take_new-Safe day_key parsed.events t.seen_fingerprints safe.1))

  discover-Safe :
      (w : World) (day_key : ℤ) (t : SessionTokenTailer)
      → IsSafe t.current_model
      → IsSafe (discover h n w day_key t).0.current_model
  unfolding discover
  discover-Safe w day_key t s = ground arith

  poll-Safe :
      (w : World) (day_key : ℤ) (hour : ℕ) (t : SessionTokenTailer)
      → IsSafe t.current_model
      → TailerSafe (poll h n w day_key hour t).0 (events_of (poll h n w day_key hour t).1)
  unfolding poll begin_day
  poll-Safe w day_key hour t s = elim (Bool-cases (is_day t.current_day day_key)) [
    | inr other ↦ rw other (read_files-Safe w day_key hour _ _ [] (tt, tt))
    | inl same ↦ elim (Bool-cases (should_discover t w)) [
      | inl y ↦ rw (same, y) (read_current-Safe w day_key hour _ _ _ (discover-Safe w day_key t s))
      | inr no_need ↦ rw (same, no_need) (read_current-Safe w day_key hour false t.current_file t s)
    ]
  ]

  -- Where the tailer holds a model that is a short identifier, or none as at the start, the events
  -- of any polls name no model, or one of at most eighty letters, digits, full stops, low lines
  -- and dashes, whatever the session logs hold.
  pub poll_day-Safe :
      (day_key : ℤ) (polls : List (World × ℕ)) (t : SessionTokenTailer)
      → IsSafe t.current_model
      → AreSafe (poll_day h n day_key polls t).1
  unfolding poll_day
  poll_day-Safe day_key [] t s = tt
  poll_day-Safe day_key ((w, hour) ∷ polls) t s =
      let x = poll-Safe w day_key hour t s in
      All-append (λ (e : SessionTokenEvent). IsSafe e.model) _ _ x.1
        (poll_day-Safe day_key polls (poll h n w day_key hour t).0 x.0)
