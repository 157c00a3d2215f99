-- ===== src/Taskbar/Updater/Releases.antt =====
-- apps/codex-taskbar/src/updater.rs: the check for a release, and its download. GitHub, SHA-256
-- and the disk are parameters.
use codex_quota_glance.Prelude.{
  ℕ, ◌==◌, if◌then◌else◌, List, [], ◌∷◌, Option, none, some, Bool, not, String, ◌||◌,
}
use codex_quota_glance.Prelude.Text.{codes, trim, is_empty, ends_with, same_codes}
use codex_quota_glance.Prelude.Results.{Result, ok, err, ◌>>=◌}
use codex_quota_glance.Taskbar.Updater.Data.{
  UpdateError, repository_missing, asset_missing, digest_missing, digest_mismatch, io, ReleaseInfo,
  UpdateStatus, current, available, GithubAsset, GithubRelease,
}
use codex_quota_glance.Taskbar.Updater.Names.{normalize_repository}
use codex_quota_glance.Taskbar.Updater.Digests.{Parsed, panicked, parsed, parse_sha256_digest}
use codex_quota_glance.Taskbar.Updater.Versions.{is_newer}
use codex_quota_glance.Taskbar.Updater.Http.{Method, Answer, download_asset, update_limit}
use codex_quota_glance.Taskbar.Updater.Ranges.{Range}

-- A check may panic at a digest.
pub data Checked : Type 0 where
  check_panicked : Checked
  checked : Result UpdateError UpdateStatus → Checked

-- `trim_start_matches(['v', 'V'])`.
pub version_of : List ℕ → List ℕ
version_of [] = []
version_of (c ∷ tag) = let rest = version_of tag in if c == b'v' || c == b'V' then rest else c ∷ tag

unfoldable pub find_asset : List GithubAsset → Option GithubAsset
find_asset [] = none
find_asset (a ∷ rest) =
    let later = find_asset rest in
    if ends_with a.name (codes "-windows-x64.exe") then some a else later

abbrev pub not_blank : Option String → Option String
not_blank none = none
not_blank (some body) = if is_empty (trim body) then none else some body

unfoldable pub with_digest : GithubRelease → GithubAsset → Parsed → Checked
unfolding version_of
with_digest release asset panicked = check_panicked
with_digest release asset (parsed none) = checked (err digest_missing)
with_digest release asset (parsed (some sha256)) = checked (
    ok (
      available (record {
        tag = release.tag_name;
        version = version_of release.tag_name;
        asset_name = asset.name;
        download_url = asset.browser_download_url;
        sha256 = sha256;
        notes = not_blank release.body;
      })))

unfoldable pub with_text : GithubRelease → GithubAsset → Option (List ℕ) → Checked
unfolding with_digest
with_text release asset none = checked (err digest_missing)
with_text release asset (some text) = with_digest release asset (parse_sha256_digest text)

unfoldable pub with_asset : GithubRelease → Option GithubAsset → Checked
unfolding with_text
with_asset release none = checked (err asset_missing)
with_asset release (some asset) = with_text release asset asset.digest

unfoldable pub with_release : (running : List ℕ) → Result UpdateError GithubRelease → Checked
unfolding with_asset version_of find_asset
with_release running (err e) = checked (err e)
with_release running (ok release) =
    if not (is_newer (version_of release.tag_name) running)
    then checked (ok current)
    else with_asset release (find_asset release.assets)

-- `latest` gets and parses the release of a repository.
unfoldable pub check_latest :
    (latest : List ℕ → Result UpdateError GithubRelease) (running : List ℕ)
    → Option String
    → Checked
unfolding normalize_repository with_release
check_latest latest running none = checked (err repository_missing)
check_latest latest running (some text) =
    with_release running (normalize_repository text >>= latest)

-- The file that is written, named after the version and the time.
pub record Staged : Type 0 where
  pub version : List ℕ
  pub stamp : ℕ
  pub bytes : List ℕ

unfoldable pub stage :
    (digest : List ℕ → List ℕ) (writes : Staged → Bool) (stamp : ℕ)
    → ReleaseInfo
    → List ℕ
    → Result UpdateError Staged
stage digest writes stamp release bytes =
    let staged : Staged = record { version = release.version; stamp = stamp; bytes = bytes } in
    if not (same_codes (digest bytes) release.sha256)
    then err digest_mismatch
    else (if writes staged then ok staged else err io)

unfoldable pub download_and_stage :
    (send : List ℕ × (ℕ × List ℕ) → Method → Option Range → Result UpdateError Answer)
    (digest : List ℕ → List ℕ) (writes : Staged → Bool) (stamp : ℕ)
    → ReleaseInfo
    → (adaptive : Bool) → Result UpdateError Staged
unfolding download_asset stage
download_and_stage send digest writes stamp release adaptive =
    download_asset send release.download_url update_limit adaptive >>= λ bytes.
    stage digest writes stamp release bytes
