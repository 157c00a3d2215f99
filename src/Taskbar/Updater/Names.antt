-- ===== src/Taskbar/Updater/Names.antt =====
-- apps/codex-taskbar/src/updater.rs: the names of repositories and the addresses of updates.
use codex_quota_glance.Prelude.{
  ℕ, leb, ◌==◌, if◌then◌else◌, List, [], ◌∷◌, ◌++◌, reverse, Option, none, some, Bool, true, ◌&&◌,
  ◌||◌, not, or_else, unwrap_or, option_map, String, ◌>>=◌,
}
use codex_quota_glance.Prelude.Text.{codes, trim, same_codes, contains}
use codex_quota_glance.Prelude.Bytes.{pieces, strip_prefix, split_once}
use codex_quota_glance.Prelude.Results.{Result, ok, err}
use codex_quota_glance.AppServer.State.Dates.{parse_u64}
use codex_quota_glance.Taskbar.Updater.Data.{UpdateError, repository_invalid, invalid_url}

-- `str::trim_start_matches` with a character.
skip_code : ℕ → List ℕ → List ℕ
skip_code c [] = []
skip_code c (x ∷ xs) = let rest = skip_code c xs in if x == c then rest else x ∷ xs

-- `trim_end_matches(".git")` on the text from its end: every such end goes.
skip_git : List ℕ → List ℕ
skip_git (t ∷ (i ∷ (g ∷ (dot ∷ text)))) =
    let rest = skip_git text in
    if t == b't' && (i == b'i' && (g == b'g' && dot == b'.'))
    then rest
    else t ∷ (i ∷ (g ∷ (dot ∷ text)))
skip_git text = text

-- The byte may stand in a name.
abbrev is_name_code : ℕ → Bool
is_name_code c =
    leb b'a' c && leb c b'z'
    || (leb b'A' c && leb c b'Z'
        || (leb b'0' c && leb c b'9' || (c == b'-' || (c == b'_' || c == b'.'))))

pub are_name_codes : List ℕ → Bool
are_name_codes [] = true
are_name_codes (c ∷ cs) = is_name_code c && are_name_codes cs

abbrev pub is_name : List ℕ → Bool
is_name part = not (same_codes part []) && are_name_codes part

-- The owner and what follows each slash.
unfoldable pub owner_and_repository : List ℕ × List (List ℕ) → Result UpdateError (List ℕ)
unfolding are_name_codes
owner_and_repository (owner, []) = err repository_invalid
owner_and_repository (owner, repo ∷ []) =
    if is_name owner && is_name repo then ok (owner ++ (b'/' ∷ repo)) else err repository_invalid
owner_and_repository (owner, repo ∷ (more ∷ rest)) = err repository_invalid

unfoldable pub normalize_repository : String → Result UpdateError (List ℕ)
unfolding skip_code skip_git owner_and_repository
normalize_repository text =
    let value = reverse (skip_git (skip_code b'/' (reverse (codes (trim text))))) in
    let path =
      unwrap_or
        (or_else (strip_prefix (codes "https://github.com/") value)
          (strip_prefix (codes "http://github.com/") value))
        value in
    owner_and_repository (pieces b'/' path)

-- `str::rsplit_once`.
rsplit_once : ℕ → List ℕ → Option (List ℕ × List ℕ)
rsplit_once c text = option_map (λ p. (reverse p.1, reverse p.0)) (split_once c (reverse text))

abbrev parse_u16 : List ℕ → Option ℕ
parse_u16 text = parse_u64 text >>= λ n. if leb n 65535 then some n else none

host_and_port : List ℕ → Option (List ℕ × List ℕ) → Option (List ℕ × ℕ)
host_and_port authority none = some (authority, 443)
host_and_port authority (some p) = option_map (λ port. (p.0, port)) (parse_u16 p.1)

-- The whole path, its slash included.
abbrev path_text : List ℕ → List ℕ
path_text path = if same_codes path (b'/' ∷ []) then path else b'/' ∷ path

abbrev with_path : List ℕ → Option (List ℕ × ℕ) → Result UpdateError (List ℕ × (ℕ × List ℕ))
with_path path none = err invalid_url
with_path path (some h) =
    if same_codes h.0 [] then err invalid_url else ok (h.0, (h.1, path_text path))

parse_authority : List ℕ × List ℕ → Result UpdateError (List ℕ × (ℕ × List ℕ))
unfolding rsplit_once host_and_port
parse_authority p =
    if same_codes p.0 [] || (contains p.0 (b'@' ∷ []) || contains p.0 (b'\\' ∷ []))
    then err invalid_url
    else with_path p.1 (host_and_port p.0 (rsplit_once b':' p.0))

parse_rest : Option (List ℕ) → Result UpdateError (List ℕ × (ℕ × List ℕ))
unfolding parse_authority
parse_rest none = err invalid_url
parse_rest (some rest) = parse_authority (unwrap_or (split_once b'/' rest) (rest, b'/' ∷ []))

unfoldable pub parse_https_url : List ℕ → Result UpdateError (List ℕ × (ℕ × List ℕ))
unfolding parse_rest
parse_https_url url = parse_rest (strip_prefix (codes "https://") url)
