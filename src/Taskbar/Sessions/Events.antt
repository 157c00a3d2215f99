-- ===== src/Taskbar/Sessions/Events.antt =====
-- apps/codex-taskbar/src/session_token_fallback.rs: what a line of a session log says.
use Prim.Native.Nat.{bit_xor}
use text.Mathlib.Text.{◌==◌ as str_eq}
use codex_quota_glance.Prelude.{
  ℕ, zero, suc, ◌*◌, ◌/◌, ◌%◌, ◌^◌, ltb, leb, ◌==◌, if◌then◌else◌, List, [], ◌∷◌, length, Option,
  none, some, Bool, true, false, ◌&&◌, ◌||◌, or_else, unwrap_or, String, ◌>>=◌,
}
use codex_quota_glance.Prelude.Int.{ℤ}
use codex_quota_glance.Prelude.Words.{saturating_add}
use codex_quota_glance.Prelude.Text.{codes}
use codex_quota_glance.Domain.Usage.{TokenCounts, display_total}
use codex_quota_glance.AppServer.Json.{Json}

pub record SessionTokenEvent : Type 0 where
  pub counts : TokenCounts
  pub model : Option String
  pub local_day_key : ℤ
  pub local_hour : ℕ

-- The local date and hour of a time stamp.
pub record LocalTime : Type 0 where
  pub day_key : ℤ
  pub hour : ℕ

-- `serde_json`, `str::bytes`, `str::from_utf8`, and the `time` crate with the local offset.
pub record Host (V : Type 0) : Type 0 where
  pub from_str : List ℕ → Option V
  pub from_utf8 : List ℕ → Option (List ℕ)
  pub bytes_of : String → List ℕ
  pub local_time : String → Option LocalTime

-- `u8::is_ascii_alphanumeric`, and a full stop, a low line or a dash.
abbrev is_identifier_code : ℕ → Bool
is_identifier_code c =
    leb b'0' c && leb c b'9'
    || (leb b'A' c && leb c b'Z'
        || (leb b'a' c && leb c b'z' || (c == b'.' || (c == b'_' || c == b'-'))))

unfoldable pub are_identifier_codes : List ℕ → Bool
are_identifier_codes [] = true
are_identifier_codes (c ∷ cs) = is_identifier_code c && are_identifier_codes cs

-- Where every byte is an ASCII one, the bytes are the codes.
unfoldable pub safe_model_identifier : String → Bool
unfolding are_identifier_codes
safe_model_identifier model =
    ltb 0 (length (codes model))
    && (leb (length (codes model)) 80 && are_identifier_codes (codes model))

unfoldable pub only_safe : Option String → Option String
only_safe none = none
only_safe (some model) = if safe_model_identifier model then some model else none

abbrev pub is_text : Option String → String → Bool
is_text none t = false
is_text (some s) t = str_eq s t

unfoldable pub nonzero_counts : TokenCounts → Option ℕ → Option TokenCounts
nonzero_counts counts none = none
nonzero_counts counts (some total) = if ltb 0 total then some counts else none

-- The total, where the line gives none.
unfoldable pub total_or_sum : Option ℕ → Option ℕ → Option ℕ → Option ℕ
total_or_sum (some total) input output = some total
total_or_sum none (some input) (some output) = some (saturating_add input output)
total_or_sum none _ _ = none

module _ {V : Type 0} ⦃j : Json V⦄ where
  abbrev token_value : V → String → Option ℕ
  token_value object field = j.get field object >>= j.as_u64

  abbrev pub type_of : V → Option String
  type_of v = j.get "type" v >>= j.as_str

  unfoldable pub turn_context_model : V → Option String
  unfolding only_safe
  turn_context_model value = j.get "payload" value >>= λ payload.
      (if is_text (type_of value) "turn_context" || is_text (type_of payload) "turn_context"
        then only_safe (j.get "model" payload >>= j.as_str)
        else none)

  unfoldable pub token_event_model : V → Option String
  unfolding only_safe
  token_event_model value = only_safe (
      j.get "payload" value >>= λ payload. j.get "info" payload >>= λ info.
      j.get "last_token_usage" info >>= λ usage. j.get "model" usage >>= j.as_str)

  unfoldable pub counts_of : V → TokenCounts
  unfolding total_or_sum
  counts_of usage =
      let input = token_value usage "input_tokens" in
      let output = token_value usage "output_tokens" in
      record {
        input = input;
        cached_input = token_value usage "cached_input_tokens";
        cache_write_input =
            or_else (token_value usage "cache_write_input_tokens")
              (token_value usage "cache_creation_input_tokens");
        output = output;
        reasoning_output = token_value usage "reasoning_output_tokens";
        total = total_or_sum (token_value usage "total_tokens") input output;
      }

  unfoldable pub token_counts : V → Option TokenCounts
  unfolding counts_of nonzero_counts
  token_counts value = j.get "payload" value >>= λ payload.
      (if is_text (type_of payload) "token_count"
        then (j.get "info" payload >>= λ info. j.get "last_token_usage" info >>= λ usage.
            nonzero_counts (counts_of usage) (display_total (counts_of usage)))
        else none)

-- FNV-1a over 64 bits.
unfoldable pub hash_bytes : ℕ → List ℕ → ℕ
hash_bytes hash [] = hash
hash_bytes hash (byte ∷ bytes) = hash_bytes (bit_xor hash byte * 1099511628211 % 2 ^ 64) bytes

-- `u64::to_le_bytes`, the first `n` of them.
unfoldable pub le_bytes : (n : ℕ) → ℕ → List ℕ
le_bytes zero number = []
le_bytes (suc n) number = number % 256 ∷ le_bytes n (number / 256)

unfoldable pub hash_number : ℕ → Option ℕ → ℕ
unfolding hash_bytes le_bytes
hash_number hash none = hash
hash_number hash (some number) = hash_bytes hash (le_bytes 8 number)

module _ {V : Type 0} ⦃j : Json V⦄ (h : Host V) where
  unfoldable pub event_fingerprint : V → TokenCounts → Option String → ℕ
  unfolding hash_bytes hash_number
  event_fingerprint value counts model =
      let stamped =
        hash_bytes 14695981039346656037
          (h.bytes_of (unwrap_or (j.get "timestamp" value >>= j.as_str) "")) in
      let counted =
        hash_number
          (hash_number
            (hash_number
              (hash_number (hash_number (hash_number stamped counts.input) counts.cached_input)
                counts.cache_write_input)
              counts.output)
            counts.reasoning_output)
          counts.total in
      hash_bytes counted (h.bytes_of (unwrap_or model ""))

  unfoldable pub event_local_clock : V → Option LocalTime
  event_local_clock value = j.get "timestamp" value >>= j.as_str >>= h.local_time
