-- ===== src/AppServer/Codec.antt =====
-- crates/adapters-codex-app-server/src/transport.rs: the codec of lines. A reader is the list of
-- the buffers that `fill_buf` will give, and how the stream ends.
pub mod Frames
pub mod Decode
mod Tests
use codex_quota_glance.Prelude.{
  ℕ, ◌-◌, min, ltb, if◌then◌else◌, List, [], ◌∷◌, ◌++◌, take, length, Option, none, some, Bool,
  true, false, ◌||◌, String,
}
use codex_quota_glance.Prelude.Int.{ℤ}
use codex_quota_glance.Prelude.Bytes.{split_once}
use codex_quota_glance.Prelude.Results.{Result, ok, err}

abbrev pub newline : ℕ
newline = 10

abbrev pub default_max_line_bytes : ℕ
default_max_line_bytes = 1048576

-- protocol.rs.
pub data ProtocolError : Type 0 where
  invalid_json : String → ProtocolError
  invalid_version : ProtocolError

-- The message of an invalid message is its text in the source.
pub data TransportError : Type 0 where
  closed eof missing_response_id invalid_utf8 id_exhausted : TransportError
  timeout : (id : ℕ) → TransportError
  io invalid_message : String → TransportError
  protocol : ProtocolError → TransportError
  rpc : (code : ℤ) (message : String) → TransportError
  line_too_long : (limit : ℕ) → TransportError

-- A buffer holds a byte at least: an empty one is the end of the file.
pub data Reader : Type 0 where
  at_end : Reader
  broken : String → Reader
  buffer : ℕ → List ℕ → Reader → Reader

-- What `consume` leaves of a buffer.
unfoldable pub buffered : List ℕ → Reader → Reader
buffered [] r = r
buffered (b ∷ bs) r = buffer b bs r

-- The bytes up to the newline, or all of the buffer, and what stands behind the newline.
unfoldable pub content : List ℕ → Option (List ℕ × List ℕ) → List ℕ
content available none = available
content available (some (line, rest)) = line

-- The frame grows up to the limit; the flag says that a byte was dropped.
unfoldable pub grow : (max_line_bytes : ℕ) → List ℕ → Bool → List ℕ → List ℕ × Bool
grow limit frame too_long bytes =
    let room = limit - length frame in
    if too_long
    then (frame, true)
    else (frame ++ take (min (length bytes) room) bytes, ltb room (length bytes))

-- At a newline.
unfoldable pub line_end : ℕ → List ℕ × Bool → Result TransportError (Option (List ℕ))
line_end limit (frame, too_long) = if too_long then err (line_too_long limit) else ok (some frame)

-- At the end of the file.
unfoldable pub file_end : ℕ → List ℕ → Bool → Result TransportError (Option (List ℕ))
file_end limit [] too_long = ok none
file_end limit (b ∷ frame) too_long =
    if too_long then err (line_too_long limit) else ok (some (b ∷ frame))

-- After a buffer: the loop ends at its newline, or goes on by `continued`.
unfoldable pub after_buffer :
    ℕ
    → List ℕ × Bool
    → Option (List ℕ × List ℕ)
    → Reader
    → Result TransportError (Option (List ℕ)) × Reader
    → Result TransportError (Option (List ℕ)) × Reader
unfolding line_end buffered
after_buffer limit grown none r continued = continued
after_buffer limit grown (some (line, rest)) r continued = (line_end limit grown, buffered rest r)

unfoldable pub read_loop :
    ℕ → Reader → List ℕ → Bool → Result TransportError (Option (List ℕ)) × Reader
unfolding content grow file_end after_buffer
read_loop limit at_end frame too_long = (file_end limit frame too_long, at_end)
read_loop limit (broken e) frame too_long = (err (io e), broken e)
read_loop limit (buffer b bs r) frame too_long =
    let found = split_once newline (b ∷ bs) in
    let grown = grow limit frame too_long (content (b ∷ bs) found) in
    let continued = read_loop limit r grown.0 grown.1 in after_buffer limit grown found r continued

pub read_frame : (max_line_bytes : ℕ) → Reader → Result TransportError (Option (List ℕ)) × Reader
unfolding read_loop
read_frame limit reader = read_loop limit reader [] false
