-- ===== src/Taskbar/Sessions/Files.antt =====
-- apps/codex-taskbar/src/session_token_fallback.rs: where the session logs are. The directories
-- are a tree, as `fs::read_dir` shows it.
use text.Mathlib.Text.{◌==◌ as str_eq}
use codex_quota_glance.Prelude.{
  ℕ, ltb, leb, if◌then◌else◌, List, [], ◌∷◌, Option, none, some, Bool, String, ◌>>=◌,
}
use codex_quota_glance.Prelude.Int.{ℤ}
use codex_quota_glance.Prelude.I32.{quotient, remainder}

-- The path with its last part, whether its extension is `jsonl`, and the time of its metadata.
pub record DirEntry : Type 0 where
  pub path : String
  pub file_name : String
  pub is_jsonl : Bool
  pub modified : Option ℕ

mutual
  -- A directory that `fs::read_dir` cannot read is `closed`.
  pub data Directory : Type 0 where
    closed : Directory
    opened : Entries → Directory

  pub data Entries : Type 0 where
    no_entries : Entries
    file : DirEntry → Entries → Entries
    directory : DirEntry → Directory → Entries → Entries
    other : DirEntry → Entries → Entries

unfoldable pub entries_of : Entries → List DirEntry
entries_of no_entries = []
entries_of (file e es) = e ∷ entries_of es
entries_of (directory e d es) = e ∷ entries_of es
entries_of (other e es) = e ∷ entries_of es

-- `fs::read_dir`.
unfoldable pub read_dir : Directory → Option (List DirEntry)
unfolding entries_of
read_dir closed = none
read_dir (opened es) = some (entries_of es)

unfoldable pub child : String → Entries → Directory
child name no_entries = closed
child name (file e es) = child name es
child name (directory e d es) =
    let rest = child name es in if str_eq e.file_name name then d else rest
child name (other e es) = child name es

unfoldable pub child_of : String → Directory → Directory
unfolding child
child_of name closed = closed
child_of name (opened es) = child name es

-- A path with the time of its last change.
abbrev Dated : Type 0
Dated = ℕ × String

-- The newest so far; among equals the first stays.
unfoldable pub newer : Option Dated → DirEntry → Option ℕ → Option Dated
newer newest e none = newest
newer none e (some modified) = some (modified, e.path)
newer (some known) e (some modified) =
    if ltb known.0 modified then some (modified, e.path) else some known

unfoldable pub newest_of : Option Dated → List DirEntry → Option Dated
unfolding newer
newest_of newest [] = newest
newest_of newest (e ∷ es) = newest_of (if e.is_jsonl then newer newest e e.modified else newest) es

abbrev path_of : Option Dated → Option String
path_of none = none
path_of (some d) = some d.1

unfoldable pub newest_jsonl_in_directory : Directory → Option String
unfolding newest_of
newest_jsonl_in_directory d = read_dir d >>= λ es. path_of (newest_of none es)

unfoldable pub visit_files : Option Dated → Entries → Option Dated
unfolding newer
visit_files newest no_entries = newest
visit_files newest (file e es) =
    visit_files (if e.is_jsonl then newer newest e e.modified else newest) es
visit_files newest (directory e d es) = visit_files newest es
visit_files newest (other e es) = visit_files newest es

-- The stack of `newest_session_file_recursive`: a directory's files come first, and then its
-- directories, the last pushed one with all below it before the others.
unfoldable mutual
  pub visit : Option Dated → Directory → Option Dated
  visit newest closed = newest
  visit newest (opened es) = visit_directories (visit_files newest es) es

  pub visit_directories : Option Dated → Entries → Option Dated
  visit_directories newest no_entries = newest
  visit_directories newest (file e es) = visit_directories newest es
  visit_directories newest (directory e d es) = visit (visit_directories newest es) d
  visit_directories newest (other e es) = visit_directories newest es

unfoldable pub newest_session_file_recursive : Directory → Option String
newest_session_file_recursive root = path_of (visit none root)

-- `session_files_for_day` without its sorting, which is `Vec::sort` of paths.
unfoldable pub jsonl_paths : List DirEntry → List String
jsonl_paths [] = []
jsonl_paths (e ∷ es) = let rest = jsonl_paths es in if e.is_jsonl then e.path ∷ rest else rest

abbrev paths_or_none : Option (List DirEntry) → List String
paths_or_none none = []
paths_or_none (some es) = jsonl_paths es

-- The formats `{}` and `{:02}` of numbers, and the order of paths.
pub record Names : Type 0 where
  pub number : ℤ → String
  pub two_digits : ℤ → String
  pub sort : List String → List String

-- The three parts of a day, and its folder.
abbrev year_of : ℤ → ℤ
year_of day_key = quotient day_key 10000

abbrev month_of : ℤ → ℤ
month_of day_key = remainder (quotient day_key 100) 100

abbrev day_of : ℤ → ℤ
day_of day_key = remainder day_key 100

unfoldable pub day_folder : Names → Directory → ℤ → Directory
unfolding child_of
day_folder n root day_key =
    child_of (n.two_digits (day_of day_key))
      (child_of (n.two_digits (month_of day_key)) (child_of (n.number (year_of day_key)) root))

unfoldable pub session_files_for_day : Names → Directory → ℤ → List String
unfolding jsonl_paths
session_files_for_day n root day_key = n.sort (paths_or_none (read_dir (day_folder n root day_key)))

unfoldable pub newest_session_file : Names → Directory → ℤ → Option String
newest_session_file n root day_key = newest_jsonl_in_directory (day_folder n root day_key)

-- `max_by_key` gives the last of equal ones.
unfoldable pub later : Option Dated → String → Option ℕ → Option Dated
later newest path none = newest
later none path (some modified) = some (modified, path)
later (some known) path (some modified) =
    if leb known.0 modified then some (modified, path) else some known

unfoldable pub newest_from : (String → Option ℕ) → Option Dated → List String → Option Dated
unfolding later
newest_from modified newest [] = newest
newest_from modified newest (path ∷ paths) =
    newest_from modified (later newest path (modified path)) paths

unfoldable pub newest_from_paths : (String → Option ℕ) → List String → Option String
unfolding newest_from
newest_from_paths modified paths = path_of (newest_from modified none paths)
