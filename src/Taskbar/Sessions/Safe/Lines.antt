-- ===== src/Taskbar/Sessions/Safe/Lines.antt =====
-- apps/codex-taskbar/src/session_token_fallback.rs: the models that are read from a log.
use codex_quota_glance.Prelude.{
  ℕ, ◌≡◌, if◌then◌else◌, List, [], ◌∷◌, All, All-append, ◌||◌, Option, none, some, Bool, true,
  false, or_else, String, Bool-cases, inl, inr, ◌>>=◌,
}
use codex_quota_glance.Prelude.Int.{ℤ}
use codex_quota_glance.Domain.Usage.{TokenCounts}
use codex_quota_glance.AppServer.Json.{Json}
use codex_quota_glance.Taskbar.Sessions.Events.{
  SessionTokenEvent, Host, safe_model_identifier, only_safe, turn_context_model, token_event_model,
  token_counts, is_text, type_of,
}
use codex_quota_glance.Taskbar.Sessions.Reading.{
  Marked, ParsedTokenEvents, count_event, take_counts, take_model, take_value, take_line,
  take_lines, read_text, read_bytes, read_token_events, lines, is_candidate,
}

abbrev pub IsSafe : Option String → Type 0
IsSafe none = Unit {0}
IsSafe (some model) = safe_model_identifier model ≡ true

abbrev pub AreSafe : List SessionTokenEvent → Type 0
AreSafe events = All (λ e. IsSafe e.model) events

only_safe-IsSafe : (o : Option String) → IsSafe (only_safe o)
unfolding only_safe
only_safe-IsSafe none = tt
only_safe-IsSafe (some model) = elim (Bool-cases (safe_model_identifier model)) [
  | inl y ↦ rw y y
  | inr n ↦ rw n tt
]

or_else-IsSafe : (a b : Option String) → IsSafe a → IsSafe b → IsSafe (or_else a b)
or_else-IsSafe none b h k = k
or_else-IsSafe (some m) b h k = h

abbrev ParsedSafe : ParsedTokenEvents → Type 0
ParsedSafe p = IsSafe p.latest_model × All (λ m. IsSafe m.1.model) p.events

if-IsSafe : (b : Bool) (o : Option String) → IsSafe o → IsSafe (if b then o else none)
if-IsSafe true o h = h
if-IsSafe false o h = tt

module _ {V : Type 0} ⦃j : Json V⦄ where
  model_in-IsSafe :
      (value : V) (o : Option V)
      → IsSafe (
          o >>= λ payload.
          (if is_text (type_of value) "turn_context" || is_text (type_of payload) "turn_context"
            then only_safe (j.get "model" payload >>= j.as_str)
            else none))
  model_in-IsSafe value none = tt
  model_in-IsSafe value (some payload) = if-IsSafe _ _ (only_safe-IsSafe _)

  turn_context_model-IsSafe : (value : V) → IsSafe (turn_context_model value)
  unfolding turn_context_model
  turn_context_model-IsSafe value = model_in-IsSafe value (j.get "payload" value)

  token_event_model-IsSafe : (value : V) → IsSafe (token_event_model value)
  unfolding token_event_model
  token_event_model-IsSafe value = only_safe-IsSafe _

module _ {V : Type 0} ⦃j : Json V⦄ (h : Host V) (today : ℤ) (fallback_hour : ℕ) where
  take_counts-Safe :
      (value : V) (o : Option TokenCounts) (p : ParsedTokenEvents)
      → ParsedSafe p
      → ParsedSafe (take_counts h today fallback_hour value o p)
  unfolding take_counts count_event
  take_counts-Safe value none p s = s
  take_counts-Safe value (some counts) p s = (
    s.0,
    All-append (λ (m : Marked). IsSafe m.1.model) p.events _ s.1
        (
          or_else-IsSafe (token_event_model value) p.latest_model (token_event_model-IsSafe value)
              s.0,
          tt,
        ),
  )

  take_model-Safe :
      (value : V) (o : Option String) (p : ParsedTokenEvents)
      → IsSafe o
      → ParsedSafe p
      → ParsedSafe (take_model h today fallback_hour value o p)
  unfolding take_model
  take_model-Safe value none p m s = take_counts-Safe value (token_counts value) p s
  take_model-Safe value (some model) p m s = (m, s.1)

  take_value-Safe :
      (o : Option V) (p : ParsedTokenEvents)
      → ParsedSafe p
      → ParsedSafe (take_value h today fallback_hour o p)
  unfolding take_value
  take_value-Safe none p s = s
  take_value-Safe (some value) p s =
      take_model-Safe value (turn_context_model value) p (turn_context_model-IsSafe value) s

  take_line-Safe :
      (line : List ℕ) (p : ParsedTokenEvents)
      → ParsedSafe p
      → ParsedSafe (take_line h today fallback_hour line p)
  unfolding take_line
  take_line-Safe line p s = elim (Bool-cases (is_candidate line)) [
    | inl y ↦ rw y (take_value-Safe (h.from_str line) p s)
    | inr n ↦ rw n s
  ]

  take_lines-Safe :
      (ls : List (List ℕ)) (p : ParsedTokenEvents)
      → ParsedSafe p
      → ParsedSafe (take_lines h today fallback_hour ls p)
  unfolding take_lines
  take_lines-Safe [] p s = s
  take_lines-Safe (line ∷ ls) p s =
      take_lines-Safe ls (take_line h today fallback_hour line p) (take_line-Safe line p s)

  read_text-Safe :
      (o : Option (List ℕ)) (p : ParsedTokenEvents)
      → ParsedSafe p
      → ParsedSafe (read_text h today fallback_hour o p)
  unfolding read_text
  read_text-Safe none p s = s
  read_text-Safe (some text) p s = take_lines-Safe (lines text) p s

  read_bytes-Safe :
      (o : Option (List ℕ)) (p : ParsedTokenEvents)
      → ParsedSafe p
      → ParsedSafe (read_bytes h today fallback_hour o p)
  unfolding read_bytes
  read_bytes-Safe none p s = s
  read_bytes-Safe (some bytes) p s = read_text-Safe (h.from_utf8 bytes) p s

  pub read_token_events-Safe :
      (content : Option (List ℕ)) (tail_only : Bool) (model : Option String)
      → IsSafe model
      → ParsedSafe (read_token_events h today fallback_hour content tail_only model)
  unfolding read_token_events
  read_token_events-Safe content tail_only model s = read_bytes-Safe _ _ (s, tt)
