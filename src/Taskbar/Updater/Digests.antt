-- ===== src/Taskbar/Updater/Digests.antt =====
-- apps/codex-taskbar/src/updater.rs, `parse_sha256_digest`: a digest printed in hexadecimal digits.
use codex_quota_glance.Prelude.{
  ℕ, ◌+◌, ◌*◌, ◌-◌, ◌/◌, ◌%◌, ◌<◌, ◌≡◌, refl, ap, ltb, leb, ◌==◌, if◌then◌else◌, List, [], ◌∷◌,
  ◌++◌, length, All, Option, none, some, Bool, false, ◌&&◌, option_map, arith, ◌>>=◌,
}
use codex_quota_glance.Prelude.Text.{codes}
use codex_quota_glance.Prelude.Bytes.{strip_prefix}

-- Indexing a text in the middle of a character is a panic.
pub data Parsed : Type 0 where
  panicked : Parsed
  parsed : Option (List ℕ) → Parsed

-- `char::to_digit(16)`.
hex_digit : ℕ → Option ℕ
hex_digit c =
    if leb b'0' c && leb c b'9'
    then some (c - b'0')
    else (if leb b'a' c && leb c b'f'
        then some (c - b'a' + 10)
        else (if leb b'A' c && leb c b'F' then some (c - b'A' + 10) else none))

-- `u8::from_str_radix` of two characters, of which the first may be a plus sign.
hex_pair : ℕ → ℕ → Option ℕ
unfolding hex_digit
hex_pair a b =
    if a == b'+'
    then hex_digit b
    else hex_digit a >>= λ high. option_map (λ low. 16 * high + low) (hex_digit b)

-- The text goes on in the middle of a character.
abbrev is_cut : List ℕ → Bool
is_cut [] = false
is_cut (c ∷ cs) = leb 128 c && ltb c 192

with_byte : Option ℕ → Parsed → Parsed
with_byte none rest = parsed none
with_byte (some b) panicked = panicked
with_byte (some b) (parsed bytes) = parsed (option_map (◌∷◌ b) bytes)

-- The loop over the bytes of the digest. The length is even.
hex_bytes : List ℕ → Parsed
unfolding hex_pair with_byte
hex_bytes (a ∷ (b ∷ text)) =
    let rest = hex_bytes text in if is_cut text then panicked else with_byte (hex_pair a b) rest
hex_bytes text = parsed (some [])

parse_hex : Option (List ℕ) → Parsed
unfolding hex_bytes
parse_hex none = parsed none
parse_hex (some hex) = if length hex == 64 then hex_bytes hex else parsed none

unfoldable pub parse_sha256_digest : List ℕ → Parsed
unfolding parse_hex
parse_sha256_digest value = parse_hex (strip_prefix (codes "sha256:") value)

-- The digits of a byte, as `{:02x}` prints them.
pub hex_code : ℕ → ℕ
hex_code d = if ltb d 10 then b'0' + d else b'a' + (d - 10)

abbrev pub hex_text : List ℕ → List ℕ
hex_text [] = []
hex_text (b ∷ bs) = hex_code (b / 16) ∷ (hex_code (b % 16) ∷ hex_text bs)

hex_digit-code : (d : ℕ) → d < 16 → hex_digit (hex_code d) ≡ some d
unfolding hex_digit hex_code
hex_digit-code d h = ground arith

hex_code-small : (d : ℕ) → d < 16 → (hex_code d < 128) × ((hex_code d == b'+') ≡ false)
unfolding hex_code
hex_code-small d h = ground arith

hex_pair-code : (b : ℕ) → b < 256 → hex_pair (hex_code (b / 16)) (hex_code (b % 16)) ≡ some b
unfolding hex_pair
hex_pair-code b h =
    let high : b / 16 < 16 = omega arith in
    let low : b % 16 < 16 = omega arith in
    rw ((hex_code-small (b / 16) high).1, hex_digit-code (b / 16) high, hex_digit-code (b % 16) low)
      (ap some (omega arith))

hex_text-uncut : (bs : List ℕ) → All (λ b. b < 256) bs → is_cut (hex_text bs) ≡ false
hex_text-uncut [] h = refl
hex_text-uncut (b ∷ bs) h =
    let small = (hex_code-small (b / 16) (omega (arith, h.0))).0 in ground (arith, small)

hex_bytes-text : (bs : List ℕ) → All (λ b. b < 256) bs → hex_bytes (hex_text bs) ≡ parsed (some bs)
unfolding hex_bytes with_byte
hex_bytes-text [] h = refl
hex_bytes-text (b ∷ bs) h =
    rw (hex_text-uncut bs h.1, hex_pair-code b h.0, hex_bytes-text bs h.1) refl

length-hex_text : (bs : List ℕ) → length (hex_text bs) ≡ 2 * length bs
length-hex_text [] = refl
length-hex_text (b ∷ bs) = omega (arith, length-hex_text bs)

-- A digest of 32 bytes that is printed behind `sha256:` in lower-case hexadecimal digits is read
-- as those bytes.
pub parse_sha256_digest-hex_text :
    (bs : List ℕ)
    → All (λ b. b < 256) bs
    → length bs ≡ 32
    → parse_sha256_digest (codes "sha256:" ++ hex_text bs) ≡ parsed (some bs)
unfolding parse_sha256_digest parse_hex strip_prefix
parse_sha256_digest-hex_text bs h e = rw (length-hex_text bs, e, hex_bytes-text bs h) refl
