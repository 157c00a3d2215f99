-- ===== src/AppServer/Codec/Tests.antt =====
-- Tests of the codec of lines, and the theorems at concrete bytes.
use codex_quota_glance.Prelude.{ℕ, arith, ◌≡◌, refl, List, [], ◌∷◌, none, some, String, Option}
use codex_quota_glance.Prelude.Bytes.{split_once}
use codex_quota_glance.Prelude.Results.{Result, ok, err}
use codex_quota_glance.AppServer.Json.{Json}
use codex_quota_glance.AppServer.Json.Trees.{
  Tree, string, object, nothing, member, trees, get_member,
}
use codex_quota_glance.AppServer.Codec.{Reader, at_end, buffer, read_frame, line_too_long}
use codex_quota_glance.AppServer.Codec.Frames.{Reads, read_frame-Reads, bytes, ending}
use codex_quota_glance.AppServer.Codec.Decode.{
  JsonRpcResponse, decode_frame, encode_value, notification, strip_return,
}
use codex_quota_glance.AppServer.Codec.Decode.Classes.{
  Decodes, decode_frame-Decodes, read_frame-encode_value,
}

-- "ab\ncd" in two buffers.
abbrev two_buffers : Reader
two_buffers = buffer 97 [] (buffer 98 (10 ∷ 99 ∷ 100 ∷ []) at_end)

first_line : read_frame 4 two_buffers ≡ (ok (some (97 ∷ 98 ∷ [])), buffer 99 (100 ∷ []) at_end)
unfolding read_frame split_once
first_line = refl

too_long_line : read_frame 1 two_buffers ≡ (err (line_too_long 1), buffer 99 (100 ∷ []) at_end)
unfolding read_frame split_once
too_long_line = refl

-- With the limit 0 a last line that is too long is taken for the end of the file.
no_room_at_end : read_frame 0 (buffer 97 [] at_end) ≡ (ok none, at_end)
unfolding read_frame split_once
no_room_at_end = refl

read_frame-Reads_example :
    Reads 1 (bytes two_buffers) (ending two_buffers) (read_frame 1 two_buffers)
read_frame-Reads_example = read_frame-Reads 1 two_buffers (omega arith)

read_frame-encode_value_example :
    ((read_frame 4 two_buffers).0 ≡ ok (some (97 ∷ 98 ∷ [])))
    × (bytes (read_frame 4 two_buffers).1 ≡ 99 ∷ 100 ∷ [])
read_frame-encode_value_example =
    read_frame-encode_value 4 (97 ∷ 98 ∷ []) (97 ∷ 98 ∷ 10 ∷ []) (99 ∷ 100 ∷ []) two_buffers
      (omega arith) (refl, (refl, tt)) (unfold encode_value in refl) refl

abbrev from_utf8 : List ℕ → Option String
from_utf8 bs = some "text"

abbrev notice : Tree
notice = object (member "method" (string "initialized") nothing)

abbrev parse_text : String → Result String Tree
parse_text text = ok notice

abbrev from_value : Tree → Result String (JsonRpcResponse Tree)
from_value v = err "no response"

instance abbrev tree_values : Json Tree
tree_values = trees

decoded_notice :
    decode_frame from_utf8 parse_text from_value (123 ∷ []) ≡ ok (some (notification notice))
unfolding decode_frame trees get_member
decoded_notice = refl

decode_frame-Decodes_example :
    Decodes from_utf8 parse_text from_value
      (strip_return (123 ∷ 125 ∷ 13 ∷ []))
      (decode_frame from_utf8 parse_text from_value (123 ∷ 125 ∷ 13 ∷ []))
decode_frame-Decodes_example =
    decode_frame-Decodes from_utf8 parse_text from_value (123 ∷ 125 ∷ 13 ∷ [])
