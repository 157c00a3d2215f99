-- ===== src/Taskbar/Sessions/Once.antt =====
-- apps/codex-taskbar/src/session_token_fallback.rs: the events that the polls of a day report, and
-- the fingerprints under which they were read.
pub mod Fresh
use codex_quota_glance.Taskbar.Sessions.Once.Fresh.{
  Reported, nothing-Reported, Reported-append, take_new-Reported, events_of, events_of-batch_if_any,
}
use mathlib.Core.List.{Mem, mem-cons_self, mem-cons_of_mem}
use codex_quota_glance.Prelude.{
  ℕ, ◌+◌, ◌≡◌, refl, sym, ◌∙◌, ap, List, [], ◌∷◌, ◌++◌, length, length-append, All-append,
  append-nil, append_assoc, subst, All, Option, none, some, Bool, true, false, ◌&&◌, not, String,
  arith, Bool-cases, inl, inr,
}
use codex_quota_glance.Prelude.Int.{ℤ, eqb_ℤ}
use codex_quota_glance.AppServer.Json.{Json}
use codex_quota_glance.Taskbar.Sessions.Events.{SessionTokenEvent, Host}
use codex_quota_glance.Taskbar.Sessions.Files.{Names}
use codex_quota_glance.Taskbar.Sessions.Reading.{Marked, read_token_events}
use codex_quota_glance.Taskbar.Sessions.Tailer.{
  SessionTokenTailer, SessionTokenBatch, World, is_member, is_day, is_new, take_new, batch_if_any,
  read_file, read_files, begin_day, discover, read_current, poll, should_discover,
}

-- Every element of a list has a property that its members have.
All-from_Mem : {A : Type 0} (Q : A → Type 0) (xs : List A) → ((x : A) → Mem x xs → Q x) → All Q xs
All-from_Mem Q [] f = tt
All-from_Mem Q (x ∷ xs) f =
    (f x mem-cons_self, All-from_Mem Q xs (λ y m. f y (mem-cons_of_mem x m)))

module _ {V : Type 0} ⦃j : Json V⦄ (h : Host V) (n : Names) where
  -- The event stands, with its fingerprint, in a file as one of the polls sees it.
  pub data ReadIn (polls : List (World × ℕ)) : Marked → Type 0 where
    read_in :
        (w : World) (hour : ℕ) (path : String) (tail : Bool) (model : Option String) (m : Marked)
        → Mem (w, hour) polls
        → Mem m (read_token_events h w.today hour (w.content path) tail model).events
        → ReadIn polls m

  -- What a poll reads has the property.
  abbrev AllRead : (WasRead : Marked → Type 0) → World × ℕ → Type 0
  AllRead WasRead poll =
      (path : String) (tail : Bool) (model : Option String)
      → All WasRead
          (read_token_events h poll.0.today poll.1 (poll.0.content path) tail model).events

  polls-AllRead : (polls : List (World × ℕ)) → All (AllRead (ReadIn polls)) polls
  polls-AllRead polls = All-from_Mem (AllRead (ReadIn polls)) polls (λ poll m path tail model.
      All-from_Mem (ReadIn polls) _ (λ x k. read_in poll.0 poll.1 path tail model x m k))

  module _ (WasRead : Marked → Type 0) (day_key : ℤ) where
    -- All that was reported on the day.
    abbrev ReportedSoFar : List ℕ → List SessionTokenEvent → Type 0
    ReportedSoFar seen events = Reported WasRead day_key [] seen events

    read_files-Reported :
        (w : World) (hour : ℕ) (paths : List String)
        (acc : SessionTokenTailer × List SessionTokenEvent)
        → AllRead WasRead (w, hour)
        → ReportedSoFar acc.0.seen_fingerprints acc.1
        → ReportedSoFar
            (read_files h n w day_key hour paths acc).0.seen_fingerprints
            (read_files h n w day_key hour paths acc).1
    unfolding read_files read_file
    read_files-Reported w hour [] acc read r = r
    read_files-Reported w hour (path ∷ paths) (t, events) read r =
        read_files-Reported w hour paths (read_file h n w day_key hour path (t, events)) read (
          Reported-append WasRead day_key [] t.seen_fingerprints _ events _ r (
            take_new-Reported WasRead day_key t.seen_fingerprints _
              (read path false t.current_model)))

    read_current-Reported :
        (w : World) (hour : ℕ) (full : Bool) (path : Option String) (t : SessionTokenTailer)
        → AllRead WasRead (w, hour)
        → Reported WasRead day_key t.seen_fingerprints
            (read_current h n w day_key hour full path t).0.seen_fingerprints
            (events_of (read_current h n w day_key hour full path t).1)
    unfolding read_current
    read_current-Reported w hour full none t read =
        nothing-Reported WasRead day_key t.seen_fingerprints
    read_current-Reported w hour full (some path) t read = rw events_of-batch_if_any (
        take_new-Reported WasRead day_key t.seen_fingerprints _
          (read path (not full) t.current_model))

  read_current-day :
      (w : World) (day_key : ℤ) (hour : ℕ) (full : Bool) (path : Option String)
      (t : SessionTokenTailer)
      → (read_current h n w day_key hour full path t).0.current_day ≡ t.current_day
  unfolding read_current
  read_current-day w day_key hour full none t = refl
  read_current-day w day_key hour full (some path) t = refl

  discover_lem :
      (w : World) (day_key : ℤ) (t : SessionTokenTailer)
      → ((discover h n w day_key t).0.seen_fingerprints ≡ t.seen_fingerprints)
        × ((discover h n w day_key t).0.current_day ≡ t.current_day)
  unfolding discover
  discover_lem w day_key t = ground arith

  read_files-day :
      (w : World) (day_key : ℤ) (hour : ℕ) (paths : List String)
      (acc : SessionTokenTailer × List SessionTokenEvent)
      → (read_files h n w day_key hour paths acc).0.current_day ≡ acc.0.current_day
  unfolding read_files read_file
  read_files-day w day_key hour [] acc = refl
  read_files-day w day_key hour (path ∷ paths) (t, events) =
      read_files-day w day_key hour paths (read_file h n w day_key hour path (t, events))

  is_day_refl : (day_key : ℤ) → is_day (some day_key) day_key ≡ true
  unfolding is_day
  is_day_refl day_key = ground arith

  -- The polls of a day, each with what it sees and the hour; with all that was reported.
  unfoldable pub poll_day :
      ℤ → List (World × ℕ) → SessionTokenTailer → SessionTokenTailer × List SessionTokenEvent
  poll_day day_key [] t = (t, [])
  poll_day day_key ((w, hour) ∷ polls) t =
      let x = poll h n w day_key hour t in
      let rest = poll_day day_key polls x.0 in (rest.0, events_of x.1 ++ rest.1)

  module _ (WasRead : Marked → Type 0) (day_key : ℤ) where
    -- The tailer has begun the day, and knows what was reported.
    record Follows (t : SessionTokenTailer) (events : List SessionTokenEvent) : Type 0 where
      day : is_day t.current_day day_key ≡ true
      reported : ReportedSoFar WasRead day_key t.seen_fingerprints events

    current-Follows :
        (w : World) (hour : ℕ) (full : Bool) (t t' : SessionTokenTailer)
        (events : List SessionTokenEvent)
        → AllRead WasRead (w, hour)
        → t'.seen_fingerprints ≡ t.seen_fingerprints
        → t'.current_day ≡ t.current_day
        → Follows t events
        → Follows
            (read_current h n w day_key hour full t'.current_file t').0
            (events ++ events_of (read_current h n w day_key hour full t'.current_file t').1)
    current-Follows w hour full t t' events read s d f = record {
      day =
          ap (λ o. is_day o day_key) (read_current-day w day_key hour full t'.current_file t' ∙ d)
          ∙ f.day;
      reported =
          Reported-append WasRead day_key [] t'.seen_fingerprints _ events _
            (subst (λ seen. ReportedSoFar WasRead day_key seen events) (sym s) f.reported)
            (read_current-Reported WasRead day_key w hour full t'.current_file t' read);
    }

    poll-Follows :
        (w : World) (hour : ℕ) (t : SessionTokenTailer) (events : List SessionTokenEvent)
        → AllRead WasRead (w, hour)
        → Follows t events
        → Follows (poll h n w day_key hour t).0 (events ++ events_of (poll h n w day_key hour t).1)
    unfolding poll
    poll-Follows w hour t events read f = elim (Bool-cases (should_discover t w)) [
      | inl y ↦
          let kept = discover_lem w day_key t in
          let found = discover h n w day_key t in
          rw (f.day, y) (current-Follows w hour found.1 t found.0 events read kept.0 kept.1 f)
      | inr no_need ↦ rw (f.day, no_need) (current-Follows w hour false t t events read refl refl f)
    ]

    begin_day-Follows :
        (w : World) (hour : ℕ) (t : SessionTokenTailer)
        → AllRead WasRead (w, hour)
        → Follows (begin_day h n w day_key hour t).0 (events_of (begin_day h n w day_key hour t).1)
    unfolding begin_day
    begin_day-Follows w hour t read = record {
      day = ap (λ o. is_day o day_key) (read_files-day w day_key hour _ _) ∙ is_day_refl day_key;
      reported =
          read_files-Reported WasRead day_key w hour _ _ read (nothing-Reported WasRead day_key []);
    }

    poll_day-Follows :
        (polls : List (World × ℕ)) (t : SessionTokenTailer) (events : List SessionTokenEvent)
        → All (AllRead WasRead) polls
        → Follows t events
        → Follows (poll_day day_key polls t).0 (events ++ (poll_day day_key polls t).1)
    unfolding poll_day
    poll_day-Follows [] t events read f = subst (Follows t) (sym (append-nil events)) f
    poll_day-Follows ((w, hour) ∷ polls) t events read f =
        let x = poll h n w day_key hour t in
        subst (Follows (poll_day day_key polls x.0).0)
          (append_assoc events (events_of x.1) (poll_day day_key polls x.0).1)
          (poll_day-Follows polls x.0 (events ++ events_of x.1) read.1
            (poll-Follows w hour t events read.0 f))

  -- Whatever the files hold, and however they change between the polls of a day: the events that
  -- the polls report, from the day's first one on, are of that day, each was read with its
  -- fingerprint from a file as one of these polls saw it, no two of them have the same
  -- fingerprint, and the tailer knows exactly their fingerprints afterwards.
  pub poll_day-Reported :
      (day_key : ℤ) (w : World) (hour : ℕ) (polls : List (World × ℕ)) (t : SessionTokenTailer)
      → is_day t.current_day day_key ≡ false
      → Reported
          (ReadIn ((w, hour) ∷ polls))
          day_key
          []
          (poll_day day_key ((w, hour) ∷ polls) t).0.seen_fingerprints
          (poll_day day_key ((w, hour) ∷ polls) t).1
  unfolding poll_day poll
  poll_day-Reported day_key w hour polls t other =
      let read = polls-AllRead ((w, hour) ∷ polls) in
      rw other
        (poll_day-Follows (ReadIn ((w, hour) ∷ polls)) day_key polls
          (begin_day h n w day_key hour t).0 (events_of (begin_day h n w day_key hour t).1) read.1
          (begin_day-Follows (ReadIn ((w, hour) ∷ polls)) day_key w hour t read.0)).reported
