-- ===== src/AppServer/Codec/Decode.antt =====
-- crates/adapters-codex-app-server/src/transport.rs: encoding a value as a line, and decoding a
-- frame. `serde_json` and the check of UTF-8 are parameters.
pub mod Classes
use text.Mathlib.Text.{◌==◌ as str_eq}
use codex_quota_glance.Prelude.{
  ℕ, ◌==◌, ltb, if◌then◌else◌, List, [], ◌∷◌, ◌++◌, length, Option, none, some, Bool, true, false,
  is_some, ◌&&◌, ◌||◌, not, String, option_map,
}
use codex_quota_glance.Prelude.Int.{ℤ}
use codex_quota_glance.Prelude.Results.{Result, ok, err}
use codex_quota_glance.AppServer.Json.{Json}
use codex_quota_glance.AppServer.Codec.{
  TransportError, invalid_message, invalid_utf8, line_too_long, missing_response_id, protocol,
  invalid_json, invalid_version, newline,
}

abbrev pub carriage_return : ℕ
carriage_return = 13

-- `u8::is_ascii_whitespace`: tab, line feed, form feed, carriage return, space.
abbrev pub is_ascii_whitespace : ℕ → Bool
is_ascii_whitespace b = b == 9 || (b == 10 || (b == 12 || (b == 13 || b == 32)))

unfoldable pub is_blank : List ℕ → Bool
is_blank [] = true
is_blank (b ∷ bs) = is_ascii_whitespace b && is_blank bs

-- `strip_suffix` and `unwrap_or`: without the last byte, where that is a carriage return.
unfoldable pub strip_return : List ℕ → List ℕ
strip_return [] = []
strip_return (b ∷ []) = if b == carriage_return then [] else b ∷ []
strip_return (b ∷ (c ∷ bs)) = b ∷ strip_return (c ∷ bs)

pub record JsonRpcError (V : Type 0) : Type 0 where
  pub code : ℤ
  pub message : String
  pub extra : Option V

pub record JsonRpcResponse (V : Type 0) : Type 0 where
  pub jsonrpc : Option String
  pub id : Option V
  pub result : Option V
  pub error : Option (JsonRpcError V)

pub data DecodedFrame (V : Type 0) : Type 0 where
  notification : V → DecodedFrame V
  response : JsonRpcResponse V → DecodedFrame V

-- `is_some_and(|version| version.as_str() != Some("2.0"))`.
unfoldable pub other_version : Option (Option String) → Bool
other_version none = false
other_version (some none) = true
other_version (some (some s)) = not (str_eq s "2.0")

-- `LineCodec::encode_value`; `bytes` is what `serde_json::to_vec` gave.
unfoldable pub encode_value :
    (max_line_bytes : ℕ) → Result String (List ℕ) → Result TransportError (List ℕ)
encode_value limit (err e) = err (invalid_message e)
encode_value limit (ok bytes) =
    if ltb limit (length bytes) then err (line_too_long limit) else ok (bytes ++ (newline ∷ []))

module _ {V : Type 0} ⦃j : Json V⦄ where
  -- `Value::as_u64` of an id that may be missing.
  abbrev pub id_number : Option V → Option ℕ
  id_number none = none
  id_number (some v) = j.as_u64 v

  unfoldable pub with_id :
      JsonRpcResponse V → Option ℕ → Result TransportError (Option (DecodedFrame V))
  with_id r none = err missing_response_id
  with_id r (some id) = ok (some (response r))

  unfoldable pub decode_response :
      Result String (JsonRpcResponse V) → Result TransportError (Option (DecodedFrame V))
  unfolding with_id
  decode_response (err e) = err (invalid_message e)
  decode_response (ok r) = with_id r (id_number r.id)

  unfoldable pub decode_notification :
      V → Option String → Result TransportError (Option (DecodedFrame V))
  decode_notification v none = err (invalid_message "通知 method 必须是字符串")
  decode_notification v (some method) = ok (some (notification v))

  -- `object.get("method").and_then(Value::as_str)`.
  abbrev pub text_of : Option V → Option String
  text_of none = none
  text_of (some v) = j.as_str v

  unfoldable pub decode_object :
      (from_value : V → Result String (JsonRpcResponse V))
      → V
      → Result TransportError (Option (DecodedFrame V))
  unfolding decode_response decode_notification other_version
  decode_object from_value v =
      if other_version (option_map j.as_str (j.get "jsonrpc" v))
      then err (protocol invalid_version)
      else if is_some (j.get "method" v) && not (is_some (j.get "id" v))
      then decode_notification v (text_of (j.get "method" v))
      else decode_response (from_value v)

  unfoldable pub decode_value :
      (from_value : V → Result String (JsonRpcResponse V))
      → Result String V
      → Result TransportError (Option (DecodedFrame V))
  unfolding decode_object
  decode_value from_value (err e) = err (protocol (invalid_json e))
  decode_value from_value (ok v) =
      if j.is_object v then decode_object from_value v else err (invalid_message "JSON-RPC 消息必须是对象")

  unfoldable pub decode_text :
      (from_str : String → Result String V)
      → (from_value : V → Result String (JsonRpcResponse V)) → Option String
      → Result TransportError (Option (DecodedFrame V))
  unfolding decode_value
  decode_text from_str from_value none = err invalid_utf8
  decode_text from_str from_value (some text) = decode_value from_value (from_str text)

  unfoldable pub decode_frame :
      (from_utf8 : List ℕ → Option String)
      → (from_str : String → Result String V) → (from_value : V → Result String (JsonRpcResponse V))
      → List ℕ
      → Result TransportError (Option (DecodedFrame V))
  unfolding decode_text strip_return is_blank
  decode_frame from_utf8 from_str from_value frame =
      if is_blank (strip_return frame)
      then ok none
      else decode_text from_str from_value (from_utf8 (strip_return frame))
