-- ===== src/Taskbar/Sessions/Tailer.antt =====
-- apps/codex-taskbar/src/session_token_fallback.rs: the tailer, which is asked once a second.
use text.Mathlib.Text.{◌==◌ as str_eq}
use codex_quota_glance.Prelude.{
  ℕ, ◌-◌, leb, ◌==◌, if◌then◌else◌, List, [], ◌∷◌, ◌++◌, Option, none, some, Bool, true, false,
  ◌&&◌, ◌||◌, not, or_else, String,
}
use codex_quota_glance.Prelude.Int.{ℤ, eqb_ℤ}
use codex_quota_glance.AppServer.Json.{Json}
use codex_quota_glance.Taskbar.Sessions.Events.{SessionTokenEvent, Host}
use codex_quota_glance.Taskbar.Sessions.Files.{
  Directory, Names, newest_session_file, newest_session_file_recursive, session_files_for_day,
  newest_from_paths,
}
use codex_quota_glance.Taskbar.Sessions.Reading.{Marked, read_token_events}

-- In nanoseconds.
abbrev rediscover_interval : ℕ
rediscover_interval = 3000000000

pub record SessionTokenBatch : Type 0 where
  pub events : List SessionTokenEvent
  pub bootstrap : Bool

-- The path of the root stays, and is left out.
pub record SessionTokenTailer : Type 0 where
  pub current_file : Option String
  pub current_day : Option ℤ
  pub seen_fingerprints : List ℕ
  pub last_discovery : Option ℕ
  pub current_model : Option String

abbrev pub new_tailer : SessionTokenTailer
new_tailer = record {
  current_file = none;
  current_day = none;
  seen_fingerprints = [];
  last_discovery = none;
  current_model = none;
}

-- What a poll sees: the files, the clock, and the local day.
pub record World : Type 0 where
  pub root : Directory
  pub content : String → Option (List ℕ)
  pub modified : String → Option ℕ
  pub is_file : String → Bool
  pub instant : ℕ
  pub today : ℤ

unfoldable pub is_member : ℕ → List ℕ → Bool
is_member n [] = false
is_member n (m ∷ ms) = n == m || is_member n ms

unfoldable pub is_listed : String → List String → Bool
is_listed path [] = false
is_listed path (p ∷ ps) = str_eq path p || is_listed path ps

unfoldable pub is_day : Option ℤ → ℤ → Bool
is_day none day_key = false
is_day (some day) day_key = eqb_ℤ day day_key

unfoldable pub same_file : Option String → Option String → Bool
same_file none none = true
same_file (some p) (some q) = str_eq p q
same_file _ _ = false

-- The day's events that are new to the set, which grows by them.
unfoldable pub is_new : ℤ → List ℕ → Marked → Bool
unfolding is_member
is_new day_key seen m = eqb_ℤ m.1.local_day_key day_key && not (is_member m.0 seen)

unfoldable pub take_new : ℤ → List ℕ → List Marked → List ℕ × List SessionTokenEvent
unfolding is_new
take_new day_key seen [] = (seen, [])
take_new day_key seen (m ∷ ms) =
    let fresh = is_new day_key seen m in
    let rest = take_new day_key (if fresh then m.0 ∷ seen else seen) ms in
    (rest.0, if fresh then m.1 ∷ rest.1 else rest.1)

-- The active file is read too, if it is none of the day's.
unfoldable pub with_active : Option String → List String → List String
unfolding is_listed
with_active none files = files
with_active (some active) files = if is_listed active files then files else files ++ (active ∷ [])

unfoldable pub is_due : Option ℕ → ℕ → Bool
is_due none now = true
is_due (some at) now = leb rediscover_interval (now - at)

unfoldable pub is_gone : Option String → World → Bool
is_gone none w = false
is_gone (some path) w = not (w.is_file path)

unfoldable pub should_discover : SessionTokenTailer → World → Bool
unfolding is_due is_gone
should_discover t w = is_due t.last_discovery w.instant || is_gone t.current_file w

unfoldable pub batch_if_any : List SessionTokenEvent → Option SessionTokenBatch
batch_if_any [] = none
batch_if_any (e ∷ events) = some (record { events = e ∷ events; bootstrap = false })

module _ {V : Type 0} ⦃j : Json V⦄ (h : Host V) (n : Names) where
  -- A file of the day that begins.
  unfoldable pub read_file :
      World
      → ℤ
      → ℕ
      → String
      → SessionTokenTailer × List SessionTokenEvent
      → SessionTokenTailer × List SessionTokenEvent
  unfolding take_new
  read_file w day_key hour path (t, events) =
      let parsed = read_token_events h w.today hour (w.content path) false t.current_model in
      let new = take_new day_key t.seen_fingerprints parsed.events in
      (record t { current_model = parsed.latest_model; seen_fingerprints = new.0 }, events ++ new.1)

  unfoldable pub read_files :
      World
      → ℤ
      → ℕ
      → List String
      → SessionTokenTailer × List SessionTokenEvent
      → SessionTokenTailer × List SessionTokenEvent
  unfolding read_file
  read_files w day_key hour [] acc = acc
  read_files w day_key hour (path ∷ paths) acc =
      read_files w day_key hour paths (read_file w day_key hour path acc)

  -- The first poll of a day.
  unfoldable pub begin_day :
      World → ℤ → ℕ → SessionTokenTailer → SessionTokenTailer × Option SessionTokenBatch
  unfolding with_active
  begin_day w day_key hour t =
      let files =
        with_active (newest_session_file_recursive w.root)
          (session_files_for_day n w.root day_key) in
      let cleared : SessionTokenTailer = record {
        current_file = newest_from_paths w.modified files;
        current_day = some day_key;
        seen_fingerprints = [];
        last_discovery = none;
        current_model = none;
      } in
      let read = read_files w day_key hour files (cleared, []) in
      (
        record read.0 { last_discovery = some w.instant },
        some (record { events = read.1; bootstrap = true }),
      )

  -- The file to read, and whether it is another one than before.
  unfoldable pub discover : World → ℤ → SessionTokenTailer → SessionTokenTailer × Bool
  unfolding same_file
  discover w day_key t =
      let next =
        or_else (newest_session_file n w.root day_key) (newest_session_file_recursive w.root) in
      let looked = record t { last_discovery = some w.instant } in
      if same_file next t.current_file
      then (looked, false)
      else (record looked { current_file = next; current_model = none }, true)

  unfoldable pub read_current :
      World
      → ℤ
      → ℕ
      → Bool
      → Option String
      → SessionTokenTailer
      → SessionTokenTailer × Option SessionTokenBatch
  unfolding take_new batch_if_any
  read_current w day_key hour scan_full none t = (t, none)
  read_current w day_key hour scan_full (some path) t =
      let parsed =
        read_token_events h w.today hour (w.content path) (not scan_full) t.current_model in
      let new = take_new day_key t.seen_fingerprints parsed.events in
      (
        record t { current_model = parsed.latest_model; seen_fingerprints = new.0 },
        batch_if_any new.1,
      )

  unfoldable pub poll :
      World
      → (day_key : ℤ) (fallback_hour : ℕ) → SessionTokenTailer
      → SessionTokenTailer × Option SessionTokenBatch
  unfolding is_day begin_day should_discover discover read_current
  poll w day_key hour t =
      if is_day t.current_day day_key
      then (let found = if should_discover t w then discover w day_key t else (t, false) in
          read_current w day_key hour found.1 found.0.current_file found.0)
      else begin_day w day_key hour t
