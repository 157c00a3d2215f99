-- ===== src/AppServer/Codec/Decode/Classes.antt =====
-- What a decoded frame is, and the way of a value through the lines.
use codex_quota_glance.Prelude.{
  ℕ, ◌≡◌, refl, ◌<◌, ap, ◌∙◌, List, [], ◌∷◌, ◌++◌, length, ltb, Option, none, some, Bool, true,
  false, is_some, ◌&&◌, not, String, arith, option_map, append_assoc, Bool-cases, inl, inr,
}
use codex_quota_glance.Prelude.Bytes.{HasNo}
use codex_quota_glance.Prelude.Results.{Result, ok, err}
use codex_quota_glance.AppServer.Json.{Json}
use codex_quota_glance.AppServer.Codec.{
  TransportError, invalid_message, invalid_utf8, missing_response_id, protocol, invalid_json,
  invalid_version, newline, Reader, read_frame,
}
use codex_quota_glance.AppServer.Codec.Frames.{bytes, read_frame-line}
use codex_quota_glance.AppServer.Codec.Decode.{
  JsonRpcResponse, DecodedFrame, notification, response, id_number, text_of, encode_value,
  decode_frame, decode_text, strip_return, decode_value, decode_object, decode_response, with_id,
  decode_notification, other_version, is_blank,
}

module _ {V : Type 0} ⦃j : Json V⦄ (from_utf8 : List ℕ → Option String)
    (from_str : String → Result String V) (from_value : V → Result String (JsonRpcResponse V))
    (line : List ℕ) where
  -- The line is not blank, is a text, and the text is the JSON of a value.
  pub record Holds (v : V) : Type 0 where
    some_byte : is_blank line ≡ false
    text : String
    is_text : from_utf8 line ≡ some text
    is_json : from_str text ≡ ok v

  -- The value is an object of version 2.0, or without a version.
  abbrev pub IsVersioned : V → Type 0
  IsVersioned v =
      (j.is_object v ≡ true) × (other_version (option_map j.as_str (j.get "jsonrpc" v)) ≡ false)

  -- It has a method and no id.
  abbrev pub announces : V → Bool
  announces v = is_some (j.get "method" v) && not (is_some (j.get "id" v))

  -- What a line without its carriage return is decoded as, and when.
  pub data Decodes : Result TransportError (Option (DecodedFrame V)) → Type 0 where
    blank : is_blank line ≡ true → Decodes (ok none)
    announced :
        (v : V) (method : String)
        → Holds v
        → IsVersioned v
        → announces v ≡ true
        → text_of (j.get "method" v) ≡ some method
        → Decodes (ok (some (notification v)))
    answered :
        (v : V) (r : JsonRpcResponse V) (id : ℕ)
        → Holds v
        → IsVersioned v
        → announces v ≡ false
        → from_value v ≡ ok r
        → id_number r.id ≡ some id
        → Decodes (ok (some (response r)))
    no_text : is_blank line ≡ false → from_utf8 line ≡ none → Decodes (err invalid_utf8)
    no_json :
        (text message : String)
        → is_blank line ≡ false
        → from_utf8 line ≡ some text
        → from_str text ≡ err message
        → Decodes (err (protocol (invalid_json message)))
    no_object :
        (v : V) (message : String)
        → Holds v
        → j.is_object v ≡ false
        → Decodes (err (invalid_message message))
    wrong_version :
        (v : V)
        → Holds v
        → j.is_object v ≡ true
        → other_version (option_map j.as_str (j.get "jsonrpc" v)) ≡ true
        → Decodes (err (protocol invalid_version))
    no_method :
        (v : V) (message : String)
        → Holds v
        → IsVersioned v
        → announces v ≡ true
        → text_of (j.get "method" v) ≡ none
        → Decodes (err (invalid_message message))
    no_response :
        (v : V) (message : String)
        → Holds v
        → IsVersioned v
        → announces v ≡ false
        → from_value v ≡ err message
        → Decodes (err (invalid_message message))
    no_id :
        (v : V) (r : JsonRpcResponse V)
        → Holds v
        → IsVersioned v
        → announces v ≡ false
        → from_value v ≡ ok r
        → id_number r.id ≡ none
        → Decodes (err missing_response_id)

  with_id-Decodes :
      (v : V) (r : JsonRpcResponse V) (o : Option ℕ)
      → Holds v
      → IsVersioned v
      → announces v ≡ false
      → from_value v ≡ ok r
      → id_number r.id ≡ o
      → Decodes (with_id r o)
  unfolding with_id
  with_id-Decodes v r none h s a e i = no_id v r h s a e i
  with_id-Decodes v r (some id) h s a e i = answered v r id h s a e i

  decode_response-Decodes :
      (v : V) (r : Result String (JsonRpcResponse V))
      → Holds v
      → IsVersioned v
      → announces v ≡ false
      → from_value v ≡ r
      → Decodes (decode_response r)
  unfolding decode_response
  decode_response-Decodes v (err message) h s a e = no_response v message h s a e
  decode_response-Decodes v (ok r) h s a e = with_id-Decodes v r (id_number r.id) h s a e refl

  decode_notification-Decodes :
      (v : V) (o : Option String)
      → Holds v
      → IsVersioned v
      → announces v ≡ true
      → text_of (j.get "method" v) ≡ o
      → Decodes (decode_notification v o)
  unfolding decode_notification
  decode_notification-Decodes v none h s a e = no_method v _ h s a e
  decode_notification-Decodes v (some method) h s a e = announced v method h s a e

  decode_object-Decodes :
      (v : V) → Holds v → j.is_object v ≡ true → Decodes (decode_object from_value v)
  unfolding decode_object
  decode_object-Decodes v h o =
      elim (Bool-cases (other_version (option_map j.as_str (j.get "jsonrpc" v)))) [
        | inl other ↦ rw other (wrong_version v h o other)
        | inr same ↦ elim (Bool-cases (announces v)) [
          | inl y ↦ rw (same, y) (decode_notification-Decodes v _ h (o, same) y refl)
          | inr n ↦ rw (same, n) (decode_response-Decodes v (from_value v) h (o, same) n refl)
        ]
      ]

  decode_value-Decodes :
      (text : String) (r : Result String V)
      → is_blank line ≡ false
      → from_utf8 line ≡ some text
      → from_str text ≡ r
      → Decodes (decode_value from_value r)
  unfolding decode_value
  decode_value-Decodes text (err message) b t e = no_json text message b t e
  decode_value-Decodes text (ok v) b t e =
      let holds : Holds v = record { some_byte = b; text = text; is_text = t; is_json = e } in
      elim (Bool-cases (j.is_object v)) [
        | inl o ↦ rw o (decode_object-Decodes v holds o)
        | inr n ↦ rw n (no_object v _ holds n)
      ]

  decode_text-Decodes :
      (text : Option String)
      → is_blank line ≡ false
      → from_utf8 line ≡ text
      → Decodes (decode_text from_str from_value text)
  unfolding decode_text
  decode_text-Decodes none b e = no_text b e
  decode_text-Decodes (some text) b e = decode_value-Decodes text (from_str text) b e refl

module _ {V : Type 0} ⦃j : Json V⦄ where
  -- Whatever UTF-8 and JSON are, a frame without its carriage return is decoded as no message
  -- exactly where it is blank; as a notification where it holds an object of version 2.0 or without
  -- a version, with a method that is a text and without an id; as the response that it holds where
  -- it holds such an object that is no notification, with a number as its id; and all else is an
  -- error, which says what is wrong.
  pub decode_frame-Decodes :
      (from_utf8 : List ℕ → Option String) (from_str : String → Result String V)
      (from_value : V → Result String (JsonRpcResponse V)) (frame : List ℕ)
      → Decodes from_utf8 from_str from_value
          (strip_return frame)
          (decode_frame from_utf8 from_str from_value frame)
  unfolding decode_frame
  decode_frame-Decodes from_utf8 from_str from_value frame =
      elim (Bool-cases (is_blank (strip_return frame))) [
        | inl y ↦ rw y (blank y)
        | inr n ↦ rw n (
            decode_text-Decodes from_utf8 from_str from_value (strip_return frame)
              (from_utf8 (strip_return frame)) n refl)
      ]

encode_value-ok :
    (limit : ℕ) (json line : List ℕ)
    → encode_value limit (ok json) ≡ ok line
    → (ltb limit (length json) ≡ false) × (line ≡ json ++ (newline ∷ []))
unfolding encode_value
encode_value-ok limit json line e = ground arith

-- A line that was encoded is read as the bytes that were encoded, and what follows stays. The
-- bytes hold no newline, as those that `serde_json::to_vec` writes.
pub read_frame-encode_value :
    (limit : ℕ) (json line rest : List ℕ) (r : Reader)
    → 0 < limit
    → HasNo newline json
    → encode_value limit (ok json) ≡ ok line
    → bytes r ≡ line ++ rest
    → ((read_frame limit r).0 ≡ ok (some json)) × (bytes (read_frame limit r).1 ≡ rest)
read_frame-encode_value limit json line rest r p h e b =
    let (fits, same) = encode_value-ok limit json line e in
    read_frame-line limit json rest r p h fits
      (b ∙ ap (λ l. l ++ rest) same ∙ append_assoc json (newline ∷ []) rest)
