-- ===== src/Taskbar/Updater/Offers.antt =====
-- apps/codex-taskbar/src/updater.rs: what an offered release and a repository's name are sure to
-- be.
use codex_quota_glance.Prelude.{
  ℕ, ◌≡◌, refl, subst, List, [], ◌∷◌, ◌++◌, Option, none, some, true, ◌&&◌, arith, Bool-cases, inl,
  inr, String,
}
use codex_quota_glance.Prelude.Results.{Result, ok, err, ◌>>=◌}
use codex_quota_glance.Prelude.Text.{codes, ends_with}
use codex_quota_glance.Taskbar.Updater.Data.{
  UpdateError, ReleaseInfo, available, GithubAsset, GithubRelease,
}
use codex_quota_glance.Taskbar.Updater.Names.{owner_and_repository, normalize_repository, is_name}
use codex_quota_glance.Taskbar.Updater.Digests.{Parsed, panicked, parsed, parse_sha256_digest}
use codex_quota_glance.Taskbar.Updater.Versions.{is_newer, version_parts, Above, is_newer-Above}
use codex_quota_glance.Taskbar.Updater.Releases.{
  Checked, checked, version_of, find_asset, with_digest, with_text, with_asset, with_release,
  check_latest,
}

-- An owner and a repository of the allowed characters.
abbrev IsRepository : Result UpdateError (List ℕ) → Type 0
IsRepository (ok name) =
    (owner : List ℕ) × ((repo : List ℕ) × ((name ≡ owner ++ (b'/' ∷ repo))
        × ((is_name owner ≡ true) × (is_name repo ≡ true))))
IsRepository (err e) = Unit

owner_and_repository-IsRepository :
    (p : List ℕ × List (List ℕ)) → IsRepository (owner_and_repository p)
unfolding owner_and_repository
owner_and_repository-IsRepository (owner, []) = tt
owner_and_repository-IsRepository (owner, repo ∷ []) =
    elim (Bool-cases (is_name owner && is_name repo)) [
      | inl e ↦ rw e (owner, (repo, (refl, (ground arith, ground arith))))
      | inr e ↦ rw e tt
    ]
owner_and_repository-IsRepository (owner, repo ∷ (more ∷ rest)) = tt

-- A repository that is accepted is an owner and a name with a slash between them, both of one or
-- more letters, digits, dashes, low lines and full stops, whatever was written in the settings.
normalize_repository-ok :
    (text : String) (name : List ℕ)
    → normalize_repository text ≡ ok name
    → (owner : List ℕ) × ((repo : List ℕ) × ((name ≡ owner ++ (b'/' ∷ repo))
          × ((is_name owner ≡ true) × (is_name repo ≡ true))))
unfolding normalize_repository
normalize_repository-ok text name h = subst IsRepository h (owner_and_repository-IsRepository _)

-- What a check may say.
abbrev IsOffer : (running : List ℕ) → Checked → Type 0
IsOffer running (checked (ok (available release))) =
    (is_newer release.version running ≡ true)
    × ((release.version ≡ version_of release.tag)
        × (ends_with release.asset_name (codes "-windows-x64.exe") ≡ true))
IsOffer running _ = Unit

abbrev HasSuffix : Option GithubAsset → Type 0
HasSuffix none = Unit
HasSuffix (some asset) = ends_with asset.name (codes "-windows-x64.exe") ≡ true

find_asset-HasSuffix : (assets : List GithubAsset) → HasSuffix (find_asset assets)
unfolding find_asset
find_asset-HasSuffix [] = tt
find_asset-HasSuffix (a ∷ rest) = elim (Bool-cases (ends_with a.name (codes "-windows-x64.exe"))) [
  | inl e ↦ rw e e
  | inr e ↦ rw e (find_asset-HasSuffix rest)
]

module _ (running : List ℕ) (release : GithubRelease)
    (newer : is_newer (version_of release.tag_name) running ≡ true) where
  with_digest-IsOffer :
      (asset : GithubAsset) (digest : Parsed)
      → HasSuffix (some asset)
      → IsOffer running (with_digest release asset digest)
  unfolding with_digest
  with_digest-IsOffer asset panicked s = tt
  with_digest-IsOffer asset (parsed none) s = tt
  with_digest-IsOffer asset (parsed (some sha256)) s = (newer, (refl, s))

  with_text-IsOffer :
      (asset : GithubAsset) (digest : Option (List ℕ))
      → HasSuffix (some asset)
      → IsOffer running (with_text release asset digest)
  unfolding with_text
  with_text-IsOffer asset none s = tt
  with_text-IsOffer asset (some text) s = with_digest-IsOffer asset (parse_sha256_digest text) s

  with_asset-IsOffer :
      (asset : Option GithubAsset) → HasSuffix asset → IsOffer running (with_asset release asset)
  unfolding with_asset
  with_asset-IsOffer none s = tt
  with_asset-IsOffer (some asset) s = with_text-IsOffer asset asset.digest s

with_release-IsOffer :
    (running : List ℕ) (release : Result UpdateError GithubRelease)
    → IsOffer running (with_release running release)
unfolding with_release
with_release-IsOffer running (err e) = tt
with_release-IsOffer running (ok release) =
    elim (Bool-cases (is_newer (version_of release.tag_name) running)) [
      | inl e ↦ rw e (
          with_asset-IsOffer running release e (find_asset release.assets)
            (find_asset-HasSuffix release.assets))
      | inr e ↦ rw e tt
    ]

check_latest-IsOffer :
    (latest : List ℕ → Result UpdateError GithubRelease) (running : List ℕ)
    (repository : Option String)
    → IsOffer running (check_latest latest running repository)
unfolding check_latest
check_latest-IsOffer latest running none = tt
check_latest-IsOffer latest running (some text) =
    with_release-IsOffer running (normalize_repository text >>= latest)

-- Where the version of an update that a check offers and the running version are numbers, as the
-- code reads them up to a suffix, the numbers of the update stand above those of the running
-- version, so that neither the same nor lower numbers are offered; its version is the one of the
-- release's tag, and its asset is one for 64-bit Windows.
pub check_latest-available :
    (latest : List ℕ → Result UpdateError GithubRelease) (running : List ℕ)
    (repository : Option String) (release : ReleaseInfo) (a b : List ℕ)
    → check_latest latest running repository ≡ checked (ok (available release))
    → version_parts release.version ≡ some a
    → version_parts running ≡ some b
    → Above a b
      × ((release.version ≡ version_of release.tag)
          × (ends_with release.asset_name (codes "-windows-x64.exe") ≡ true))
check_latest-available latest running repository release a b h e f =
    let offer = subst (IsOffer running) h (check_latest-IsOffer latest running repository) in
    (is_newer-Above release.version running a b e f offer.0, offer.1)
