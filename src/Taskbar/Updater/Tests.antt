-- ===== src/Taskbar/Updater/Tests.antt =====
-- apps/codex-taskbar/src/updater.rs: small runs.
use codex_quota_glance.Prelude.Bytes.{pieces, split_once, strip_prefix}
use codex_quota_glance.AppServer.State.Dates.{parse_u64}
use codex_quota_glance.Prelude.{
  ℕ, zero, suc, All, ◌<◌, ◌≤◌, ◌≡◌, refl, ◌+◌, ◌-◌, List, [], ◌∷◌, ◌++◌, length, take, drop,
  replicate, Option, none, some, true, arith, ◌*◌,
}
use codex_quota_glance.Prelude.Results.{Result, ok, err}
use codex_quota_glance.Prelude.Text.{ends_with, codes, contains, is_whitespace, same_codes, trim}
use codex_quota_glance.Taskbar.Updater.Data.{
  HttpResponse, UpdateError, repository_invalid, invalid_url, ReleaseInfo, available, GithubRelease,
}
use codex_quota_glance.Taskbar.Updater.Names.{normalize_repository, parse_https_url}
use codex_quota_glance.Taskbar.Updater.Digests.{
  panicked, parsed, parse_sha256_digest, parse_sha256_digest-hex_text, hex_text,
}
use codex_quota_glance.Taskbar.Updater.Versions.{is_newer, version_parts, Above}
use codex_quota_glance.Taskbar.Updater.Ranges.{Range, parallel_range_get}
use codex_quota_glance.Taskbar.Updater.Ranges.Whole.{parallel_range_get-whole}
use codex_quota_glance.Taskbar.Updater.Http.{Method, Answer}
use codex_quota_glance.Taskbar.Updater.Releases.{
  version_of, check_latest, checked, Staged, download_and_stage,
}
use codex_quota_glance.Taskbar.Updater.Limits.{download_and_stage-safe}
use codex_quota_glance.Taskbar.Updater.Offers.{check_latest-available}

beta_is_newer : is_newer (codes "1.0.0-beta.2") (codes "1.0.0") ≡ true
unfolding is_newer parse_u64 pieces
beta_is_newer = refl

repository_of_url :
    normalize_repository " https://github.com/owner/repo.git/" ≡ ok (codes "owner/repo")
unfolding normalize_repository pieces strip_prefix trim is_whitespace same_codes
repository_of_url = refl

foreign_host : normalize_repository "https://example.com/owner/repo" ≡ err repository_invalid
unfolding normalize_repository pieces strip_prefix trim is_whitespace
foreign_host = refl

url_with_port :
    parse_https_url (codes "https://host:8443/a/b") ≡ ok (codes "host", (8443, codes "/a/b"))
unfolding parse_https_url strip_prefix same_codes split_once contains parse_u64
url_with_port = refl

plain_http : parse_https_url (codes "http://host/") ≡ err invalid_url
unfolding parse_https_url strip_prefix
plain_http = refl

-- A digit is taken with a plus sign before it.
plus_sign :
    parse_sha256_digest (codes "sha256:" ++ (b'+' ∷ (b'a' ∷ replicate 62 b'0')))
    ≡ parsed (some (10 ∷ replicate 31 0))
unfolding parse_sha256_digest strip_prefix
plus_sign = refl

-- A character of two bytes at the second place is a panic.
cut_digest :
    parse_sha256_digest (codes "sha256:" ++ (b'0' ∷ (195 ∷ (169 ∷ replicate 61 b'0')))) ≡ panicked
unfolding parse_sha256_digest strip_prefix
cut_digest = refl

abbrev file : List ℕ
file = codes "0123456789"

abbrev serve : Range → Result UpdateError HttpResponse
serve r = ok (record {
  status = 206;
  content_length = none;
  bytes = take (r.last - r.start + 1) (drop r.start file);
})

parallel_range_get-whole_example : parallel_range_get serve 10 100 ≡ ok (codes "0123456789")
parallel_range_get-whole_example =
    parallel_range_get-whole file serve 100 (λ r. (none, refl)) (omega arith) (omega arith)
      (omega arith)

All-replicate : (P : ℕ → Type 0) (n a : ℕ) → P a → All P (replicate n a)
All-replicate P zero a h = tt
All-replicate P (suc n) a h = (h, All-replicate P n a h)

parse_sha256_digest-hex_text_example :
    parse_sha256_digest (codes "sha256:" ++ hex_text (replicate 32 171))
    ≡ parsed (some (replicate 32 171))
parse_sha256_digest-hex_text_example =
    parse_sha256_digest-hex_text (replicate 32 171)
      (All-replicate (λ b. b < 256) 32 171 (omega arith)) refl

abbrev answer : List ℕ × (ℕ × List ℕ) → Method → Option Range → Result UpdateError Answer
answer address method range = ok (record {
  status = 200;
  content_length = none;
  chunks = record { available = 4; data_read = codes "data" } ∷ [];
  failure = none;
})

abbrev first_bytes : List ℕ → List ℕ
first_bytes xs = take 2 xs

abbrev release : ReleaseInfo
release = record {
  tag = codes "v2";
  version = codes "2";
  asset_name = codes "a-windows-x64.exe";
  download_url = codes "https://host/a";
  sha256 = codes "da";
  notes = none;
}

abbrev staged : Staged
staged = record { version = codes "2"; stamp = 7; bytes = codes "data" }

staged_lem : download_and_stage answer first_bytes (λ s. true) 7 release true ≡ ok staged
unfolding download_and_stage strip_prefix same_codes split_once contains
staged_lem = refl

download_and_stage-safe_example :
    (first_bytes staged.bytes ≡ codes "da")
    × ((length staged.bytes ≤ 256 * 1024 * 1024) × (true ≡ true))
download_and_stage-safe_example =
    download_and_stage-safe answer first_bytes (λ s. true) 7 release true staged staged_lem

abbrev latest : List ℕ → Result UpdateError GithubRelease
latest repository = ok (record {
  tag_name = codes "v2.0.0";
  body = none;
  assets =
      record {
        name = codes "a-windows-x64.exe";
        browser_download_url = codes "https://host/a";
        digest = some (codes "sha256:" ++ replicate 64 b'0');
      }
      ∷ [];
})

abbrev offered : ReleaseInfo
offered = record {
  tag = codes "v2.0.0";
  version = codes "2.0.0";
  asset_name = codes "a-windows-x64.exe";
  download_url = codes "https://host/a";
  sha256 = replicate 32 0;
  notes = none;
}

offered_lem :
    check_latest latest (codes "1.9.3") (some "owner/repo") ≡ checked (ok (available offered))
unfolding check_latest pieces strip_prefix trim is_whitespace same_codes is_newer parse_u64
    ends_with parse_sha256_digest
offered_lem = refl

two_above : version_parts (codes "2.0.0") ≡ some (2 ∷ 0 ∷ 0 ∷ [])
unfolding version_parts parse_u64 pieces
two_above = refl

one_below : version_parts (codes "1.9.3") ≡ some (1 ∷ 9 ∷ 3 ∷ [])
unfolding version_parts parse_u64 pieces
one_below = refl

check_latest-available_example :
    Above (2 ∷ 0 ∷ 0 ∷ []) (1 ∷ 9 ∷ 3 ∷ [])
    × ((codes "2.0.0" ≡ version_of (codes "v2.0.0"))
        × (ends_with (codes "a-windows-x64.exe") (codes "-windows-x64.exe") ≡ true))
check_latest-available_example =
    check_latest-available latest (codes "1.9.3") (some "owner/repo") offered (2 ∷ 0 ∷ 0 ∷ [])
      (1 ∷ 9 ∷ 3 ∷ []) offered_lem two_above one_below
