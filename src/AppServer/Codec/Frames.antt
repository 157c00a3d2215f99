-- ===== src/AppServer/Codec/Frames.antt =====
-- A frame is a line of the bytes, whatever the buffers are.
use codex_quota_glance.Prelude.{
  ℕ, zero, suc, ◌<◌, ◌≡◌, refl, ap, subst, ◌∙◌, inl, inr, Bool-cases, ltb, if◌then◌else◌, List, [],
  ◌∷◌, ◌++◌, take, length, Option, none, some, false, String, arith, length-append, append_assoc,
  append-nil,
}
use codex_quota_glance.Prelude.Bytes.{
  split_once, HasNo, Splits, split_once-Splits, split_once-none, split_once-append, HasNo-append,
  take_all, length-take, take-append, take-append_long,
}
use codex_quota_glance.Prelude.Results.{Result, ok, err}
use codex_quota_glance.AppServer.Codec.{
  newline, TransportError, io, line_too_long, Reader, at_end, broken, buffer, buffered, grow,
  line_end, file_end, content, after_buffer, read_loop, read_frame,
}

-- All bytes of a reader, and its end.
abbrev pub bytes : Reader → List ℕ
bytes at_end = []
bytes (broken e) = []
bytes (buffer b bs r) = b ∷ (bs ++ bytes r)

abbrev pub ending : Reader → Option String
ending at_end = none
ending (broken e) = some e
ending (buffer b bs r) = ending r

-- A line is a frame if it is not longer than the limit.
framed : ℕ → List ℕ → Result TransportError (Option (List ℕ))
framed limit line = if ltb limit (length line) then err (line_too_long limit) else ok (some line)

-- The last line, which has no newline.
last_line : ℕ → Option String → List ℕ → Result TransportError (Option (List ℕ))
last_line limit (some e) line = err (io e)
last_line limit none [] = ok none
last_line limit none (b ∷ line) = framed limit (b ∷ line)

pub line_of :
    ℕ
    → Option String
    → List ℕ
    → Option (List ℕ × List ℕ)
    → Result TransportError (Option (List ℕ)) × List ℕ
unfolding framed last_line
line_of limit end all none = (last_line limit end all, [])
line_of limit end all (some (line, rest)) = (framed limit line, rest)

grow_lem :
    (limit : ℕ) (seen more : List ℕ)
    → grow limit (take limit seen) (ltb limit (length seen)) more
      ≡ (take limit (seen ++ more), ltb limit (length (seen ++ more)))
unfolding grow
grow_lem limit seen more = elim (Bool-cases (ltb limit (length seen))) [
  | inl long ↦ rw long (ground (arith, take-append_long limit seen more, length-append seen more))
  | inr short ↦ rw short (
      ground (
        arith,
        take-append limit seen more,
        length-append seen more,
        length-take limit seen,
        take_all limit seen,
      ))
]

line_end_lem :
    (limit : ℕ) (line : List ℕ)
    → line_end limit (take limit line, ltb limit (length line)) ≡ framed limit line
unfolding line_end framed
line_end_lem limit line = ground (arith, take_all limit line)

file_end_lem :
    (limit : ℕ) (line : List ℕ)
    → 0 < limit
    → file_end limit (take limit line) (ltb limit (length line)) ≡ last_line limit none line
unfolding file_end last_line framed
file_end_lem zero line h = absurd (omega arith)
file_end_lem (suc limit) [] h = refl
file_end_lem (suc limit) (b ∷ line) h = ground (arith, take_all limit line)

buffered_lem :
    (rest : List ℕ) (r : Reader)
    → (bytes (buffered rest r) ≡ rest ++ bytes r) × (ending (buffered rest r) ≡ ending r)
unfolding buffered
buffered_lem [] r = (refl, refl)
buffered_lem (b ∷ bs) r = (refl, refl)

-- What reading a frame from these bytes gives, and what it leaves.
pub record Reads (limit : ℕ) (all : List ℕ) (end : Option String)
    (read : Result TransportError (Option (List ℕ)) × Reader) : Type 0 where
  pub frame : read.0 ≡ (line_of limit end all (split_once newline all)).0
  pub rest : bytes read.1 ≡ (line_of limit end all (split_once newline all)).1
  pub end_same : ending read.1 ≡ end

Reads-last :
    (limit : ℕ) (seen : List ℕ) (r : Reader)
    → HasNo newline seen
    → bytes r ≡ []
    → Reads limit (seen ++ bytes r) (ending r) (last_line limit (ending r) seen, r)
unfolding line_of
Reads-last limit seen r h e =
    let all : seen ++ bytes r ≡ seen = rw e (append-nil seen) in
    let none_left = ap (split_once newline) all ∙ split_once-none newline seen h in
    record { frame = rw (none_left, all) refl; rest = rw (none_left, e) refl; end_same = refl }

content-HasNo :
    (available : List ℕ) (found : Option (List ℕ × List ℕ))
    → Splits newline available found
    → HasNo newline (content available found)
unfolding content
content-HasNo available none s = s
content-HasNo available (some (line, rest)) s = s.1

after_buffer-Reads :
    (limit : ℕ) (seen available : List ℕ) (found : Option (List ℕ × List ℕ)) (r : Reader)
    (continued : Result TransportError (Option (List ℕ)) × Reader)
    → HasNo newline seen
    → Splits newline available found
    → Reads limit ((seen ++ content available found) ++ bytes r) (ending r) continued
    → Reads limit (seen ++ (available ++ bytes r)) (ending r) (
        after_buffer limit
          (
            take limit (seen ++ content available found),
            ltb limit (length (seen ++ content available found)),
          )
          found
          r
          continued)
unfolding after_buffer content line_of
after_buffer-Reads limit seen available none r continued h s ih =
    rw (← append_assoc seen available (bytes r)) ih
after_buffer-Reads limit seen available (some (line, rest)) r continued h s ih =
    let all : seen ++ (available ++ bytes r) ≡ (seen ++ line) ++ (newline ∷ (rest ++ bytes r)) =
      rw s.0 (simp append_assoc) in
    let split =
      ap (split_once newline) all
      ∙ split_once-append newline (seen ++ line) (rest ++ bytes r)
          (HasNo-append newline seen line h s.1) in
    let left = buffered_lem rest r in
    record {
      frame = rw split (line_end_lem limit (seen ++ line));
      rest = rw split left.0;
      end_same = left.1;
    }

read_loop-Reads :
    (limit : ℕ) (seen : List ℕ) (r : Reader)
    → 0 < limit
    → HasNo newline seen
    → Reads limit
        (seen ++ bytes r)
        (ending r)
        (read_loop limit r (take limit seen) (ltb limit (length seen)))
unfolding read_loop
read_loop-Reads limit seen at_end p h =
    rw (file_end_lem limit seen p) (Reads-last limit seen at_end h refl)
read_loop-Reads limit seen (broken e) p h =
    unfold last_line in Reads-last limit seen (broken e) h refl
read_loop-Reads limit seen (buffer b bs r) p h =
    let found = split_once newline (b ∷ bs) in
    let s = split_once-Splits newline (b ∷ bs) in
    let seen' = seen ++ content (b ∷ bs) found in
    rw (grow_lem limit seen (content (b ∷ bs) found)) (
      after_buffer-Reads limit seen (b ∷ bs) found r
        (read_loop limit r (take limit seen') (ltb limit (length seen'))) h s
        (read_loop-Reads limit seen' r p
          (HasNo-append newline seen (content (b ∷ bs) found) h (content-HasNo (b ∷ bs) found s))))

none_over : (limit : ℕ) → ltb limit 0 ≡ false
none_over limit = ground arith

-- Where the limit is not 0, reading a frame gives the next line of the bytes, whatever the buffers
-- are: the line if it fits, an error if it is longer than the limit; reading then goes on behind
-- the newline. At the end of the file the last line needs no newline, and an empty one is none; a
-- stream that breaks gives its error.
pub read_frame-Reads :
    (limit : ℕ) (r : Reader) → 0 < limit → Reads limit (bytes r) (ending r) (read_frame limit r)
unfolding read_frame
read_frame-Reads limit r p =
    let no_byte : take limit [] ≡ [] = take_all limit [] (omega arith) in
    subst (λ frame. Reads limit (bytes r) (ending r) (read_loop limit r frame false)) no_byte
      (subst (λ long. Reads limit (bytes r) (ending r) (read_loop limit r (take limit []) long))
        (none_over limit) (read_loop-Reads limit [] r p tt))

pub read_frame-line :
    (limit : ℕ) (line rest : List ℕ) (r : Reader)
    → 0 < limit
    → HasNo newline line
    → ltb limit (length line) ≡ false
    → bytes r ≡ line ++ (newline ∷ rest)
    → ((read_frame limit r).0 ≡ ok (some line)) × (bytes (read_frame limit r).1 ≡ rest)
unfolding line_of framed
read_frame-line limit line rest r p h fits b =
    let split = ap (split_once newline) b ∙ split_once-append newline line rest h in
    let reads = read_frame-Reads limit r p in
    (rw (split, fits) at reads.frame, rw split at reads.rest)
