-- ===== src/Taskbar/Sessions/Reading.antt =====
-- apps/codex-taskbar/src/session_token_fallback.rs: `read_token_events`, which reads a session log
-- or its tail.
use codex_quota_glance.Prelude.{
  ℕ, ◌-◌, ◌*◌, min, ltb, if◌then◌else◌, List, [], ◌∷◌, ◌++◌, length, drop, Option, none, some, Bool,
  ◌||◌, or_else, ◌>>=◌, unwrap_or, String,
}
use codex_quota_glance.Prelude.Int.{ℤ}
use codex_quota_glance.Prelude.Text.{codes, contains}
use codex_quota_glance.Prelude.Bytes.{split_once, pieces}
use codex_quota_glance.Domain.Usage.{TokenCounts}
use codex_quota_glance.AppServer.Json.{Json}
use codex_quota_glance.AppServer.Codec.{newline}
use codex_quota_glance.AppServer.Codec.Decode.{strip_return}
use codex_quota_glance.Taskbar.Sessions.Events.{
  SessionTokenEvent, Host, turn_context_model, token_event_model, token_counts, event_fingerprint,
  event_local_clock,
}

abbrev tail_read_bytes : ℕ
tail_read_bytes = 512 * 1024

-- An event with its fingerprint.
abbrev pub Marked : Type 0
Marked = ℕ × SessionTokenEvent

pub record ParsedTokenEvents : Type 0 where
  pub events : List Marked
  pub latest_model : Option String

-- `str::lines`. A line that ends in a newline loses a carriage return; behind the last newline stands a line
-- only if it is not empty.
unfoldable pub ended_lines : List ℕ → List (List ℕ) → List (List ℕ)
ended_lines [] [] = []
ended_lines (c ∷ cs) [] = (c ∷ cs) ∷ []
ended_lines line (next ∷ rest) = strip_return line ∷ ended_lines next rest

unfoldable pub lines : List ℕ → List (List ℕ)
unfolding pieces ended_lines
lines text = let p = pieces newline text in ended_lines p.0 p.1

abbrev quoted : String → List ℕ
quoted name = b'"' ∷ (codes name ++ (b'"' ∷ []))

unfoldable pub is_candidate : List ℕ → Bool
is_candidate line = contains line (quoted "token_count") || contains line (quoted "turn_context")

-- What is read from the offset on, without its first, broken line.
unfoldable pub after_newline : Option (List ℕ × List ℕ) → Option (List ℕ)
after_newline none = none
after_newline (some (line, rest)) = some rest

unfoldable pub part_to_read : (tail_only : Bool) → List ℕ → Option (List ℕ)
unfolding after_newline
part_to_read tail_only content =
    let offset = if tail_only then length content - tail_read_bytes else 0 in
    if ltb 0 offset then after_newline (split_once newline (drop offset content)) else some content

module _ {V : Type 0} ⦃j : Json V⦄ (h : Host V) (today : ℤ) (fallback_hour : ℕ) where
  -- A line with counts.
  unfoldable pub count_event : V → TokenCounts → Option String → Marked
  count_event value counts latest =
      let clock =
        unwrap_or (event_local_clock h value)
          (record { day_key = today; hour = min fallback_hour 23 }) in
      let model = or_else (token_event_model value) latest in
      (
        event_fingerprint h value counts model,
        record {
          counts = counts;
          model = model;
          local_day_key = clock.day_key;
          local_hour = clock.hour;
        },
      )

  unfoldable pub take_counts : V → Option TokenCounts → ParsedTokenEvents → ParsedTokenEvents
  unfolding count_event
  take_counts value none p = p
  take_counts value (some counts) p = record p {
    events = p.events ++ (count_event value counts p.latest_model ∷ []);
  }

  unfoldable pub take_model : V → Option String → ParsedTokenEvents → ParsedTokenEvents
  unfolding take_counts
  take_model value (some model) p = record p { latest_model = some model }
  take_model value none p = take_counts value (token_counts value) p

  unfoldable pub take_value : Option V → ParsedTokenEvents → ParsedTokenEvents
  unfolding take_model
  take_value none p = p
  take_value (some value) p = take_model value (turn_context_model value) p

  unfoldable pub take_line : List ℕ → ParsedTokenEvents → ParsedTokenEvents
  unfolding take_value is_candidate
  take_line line p = if is_candidate line then take_value (h.from_str line) p else p

  -- The `for` loop over the lines.
  unfoldable pub take_lines : List (List ℕ) → ParsedTokenEvents → ParsedTokenEvents
  take_lines [] p = p
  take_lines (line ∷ ls) p = take_lines ls (take_line line p)

  unfoldable pub read_text : Option (List ℕ) → ParsedTokenEvents → ParsedTokenEvents
  unfolding lines
  read_text none p = p
  read_text (some text) p = take_lines (lines text) p

  unfoldable pub read_bytes : Option (List ℕ) → ParsedTokenEvents → ParsedTokenEvents
  read_bytes none p = p
  read_bytes (some bytes) p = read_text (h.from_utf8 bytes) p

  -- `none` is a file that cannot be opened or read.
  unfoldable pub read_token_events : Option (List ℕ) → Bool → Option String → ParsedTokenEvents
  read_token_events content tail_only initial_model =
      read_bytes (content >>= part_to_read tail_only)
        (record { events = []; latest_model = initial_model })
