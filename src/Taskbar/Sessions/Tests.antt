-- ===== src/Taskbar/Sessions/Tests.antt =====
-- A session log of two lines, and the theorems at it.
use codex_quota_glance.Prelude.{
  ℕ, ◌≡◌, refl, ◌++◌, if◌then◌else◌, List, [], ◌∷◌, length, none, some, true, String,
}
use codex_quota_glance.Prelude.Int.{pos, difference}
use codex_quota_glance.Prelude.Text.{codes, contains, starts_with}
use codex_quota_glance.Prelude.Bytes.{split_once, pieces}
use codex_quota_glance.Prelude.Words.{saturating_add}
use codex_quota_glance.AppServer.Codec.Decode.{strip_return}
use codex_quota_glance.Domain.Usage.{display_total}
use codex_quota_glance.AppServer.Json.{Json}
use codex_quota_glance.AppServer.Json.Trees.{
  Tree, string, number, object, nothing, member, trees, get_member,
}
use codex_quota_glance.AppServer.Codec.{newline}
use codex_quota_glance.Taskbar.Sessions.Events.{
  Host, turn_context_model, are_identifier_codes, counts_of, event_fingerprint, event_local_clock,
  hash_bytes, hash_number, le_bytes, nonzero_counts, only_safe, safe_model_identifier, token_counts,
  token_event_model, total_or_sum,
}
use codex_quota_glance.Taskbar.Sessions.Files.{
  DirEntry, Directory, opened, no_entries, file, directory, Names, newest_session_file_recursive,
  visit, visit_files, session_files_for_day, read_dir, day_folder, child, child_of, entries_of,
  jsonl_paths, later, newer, newest_from, newest_from_paths, newest_jsonl_in_directory, newest_of,
  newest_session_file,
}
use codex_quota_glance.Taskbar.Sessions.Tailer.{
  World, new_tailer, poll, read_files, batch_if_any, begin_day, discover, is_day, is_due, is_gone,
  is_listed, is_member, is_new, read_current, read_file, same_file, should_discover, take_new,
  with_active,
}
use codex_quota_glance.Taskbar.Sessions.Reading.{
  read_token_events, read_bytes, part_to_read, read_text, take_lines, take_line, after_newline,
  count_event, ended_lines, is_candidate, lines, take_counts, take_model, take_value,
}
use codex_quota_glance.Taskbar.Sessions.Once.{ReadIn, poll_day, poll_day-Reported}
use codex_quota_glance.Taskbar.Sessions.Once.Fresh.{Reported}
use codex_quota_glance.Taskbar.Sessions.Safe.{poll_day-Safe}
use codex_quota_glance.Taskbar.Sessions.Safe.Lines.{AreSafe}

instance abbrev tree_values : Json Tree
tree_values = trees

abbrev usage : Tree
usage = object (
    member "last_token_usage"
      (object (member "input_tokens" (number 5) (member "output_tokens" (number 2) nothing)))
      nothing)

abbrev count_line : Tree
count_line = object (
    member "payload" (object (member "type" (string "token_count") (member "info" usage nothing)))
      nothing)

abbrev context_line : Tree
context_line = object (
    member "type" (string "turn_context")
      (member "payload" (object (member "model" (string "gpt-5") nothing)) nothing))

abbrev host : Host Tree
host = record {
  from_str = λ line. some (if contains line (codes "count") then count_line else context_line);
  from_utf8 = λ bytes. some bytes;
  bytes_of = codes;
  local_time = λ text. none;
}

abbrev names : Names
names = record { number = λ n. "y"; two_digits = λ n. "d"; sort = λ paths. paths }

abbrev entry : String → DirEntry
entry name = record { path = name; file_name = name; is_jsonl = true; modified = some 7 }

abbrev log_directory : Directory
log_directory = opened (
    directory (entry "y")
      (opened (
        directory (entry "d")
          (opened (directory (entry "d") (opened (file (entry "log") no_entries)) no_entries))
          no_entries))
      no_entries)

-- The counts stand before the first model of the log.
abbrev log : List ℕ
log =
    (b'"' ∷ codes "token_count")
    ++ (b'"' ∷ newline ∷ b'"' ∷ codes "turn_context")
    ++ (b'"' ∷ newline ∷ [])

abbrev world : World
world = record {
  root = log_directory;
  content = λ path. some log;
  modified = λ path. some 7;
  is_file = λ path. true;
  instant = 0;
  today = pos 20260203;
}

abbrev polls : List (World × ℕ)
polls = (world, 9) ∷ (world, 9) ∷ []

-- The one line with counts is reported by both polls: with the second the model that the first
-- found behind it is its model, so that its fingerprint is another.
reported_twice : length (poll_day host names (pos 20260203) polls new_tailer).1 ≡ 2
unfolding poll_day poll read_files newest_session_file_recursive visit visit_files
    session_files_for_day read_dir day_folder read_token_events read_bytes part_to_read read_text
    take_lines take_line contains strip_return turn_context_model display_total split_once
    difference starts_with saturating_add are_identifier_codes counts_of event_fingerprint
    event_local_clock hash_bytes hash_number le_bytes nonzero_counts only_safe safe_model_identifier
    token_counts token_event_model total_or_sum child child_of entries_of jsonl_paths later newer
    newest_from newest_from_paths newest_jsonl_in_directory newest_of newest_session_file
    after_newline count_event ended_lines is_candidate lines pieces take_counts take_model
    take_value batch_if_any begin_day discover is_day is_due is_gone is_listed is_member is_new
    read_current read_file same_file should_discover take_new with_active trees get_member
reported_twice = refl

poll_day-Reported_example :
    Reported
      (ReadIn host names ((world, 9) ∷ ((world, 9) ∷ [])))
      (pos 20260203)
      []
      (poll_day host names (pos 20260203) polls new_tailer).0.seen_fingerprints
      (poll_day host names (pos 20260203) polls new_tailer).1
unfolding is_day
poll_day-Reported_example =
    poll_day-Reported host names (pos 20260203) world 9 ((world, 9) ∷ []) new_tailer refl

poll_day-Safe_example : AreSafe (poll_day host names (pos 20260203) polls new_tailer).1
poll_day-Safe_example = poll_day-Safe host names (pos 20260203) polls new_tailer tt
