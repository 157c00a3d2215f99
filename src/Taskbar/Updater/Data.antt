-- ===== src/Taskbar/Updater/Data.antt =====
-- apps/codex-taskbar/src/updater.rs: releases, what a check answers and what goes wrong. A text is
-- the list of its bytes, but for those that are trimmed or shown.
use codex_quota_glance.Prelude.{ℕ, List, Option, String}

-- An I/O error does not keep its kind.
pub data UpdateError : Type 0 where
  repository_missing repository_invalid invalid_url : UpdateError
  http : String → UpdateError
  http_status : ℕ → UpdateError
  response_too_large : UpdateError
  invalid_manifest : String → UpdateError
  asset_missing digest_missing digest_mismatch io : UpdateError

pub record ReleaseInfo : Type 0 where
  pub tag : List ℕ
  pub version : List ℕ
  pub asset_name : List ℕ
  pub download_url : List ℕ
  pub sha256 : List ℕ
  pub notes : Option String

pub data UpdateStatus : Type 0 where
  current : UpdateStatus
  available : ReleaseInfo → UpdateStatus

pub record GithubAsset : Type 0 where
  pub name : List ℕ
  pub browser_download_url : List ℕ
  pub digest : Option (List ℕ)

pub record GithubRelease : Type 0 where
  pub tag_name : List ℕ
  pub body : Option String
  pub assets : List GithubAsset

-- `status` is a `u32`, `content_length` a `u64`.
pub record HttpResponse : Type 0 where
  pub status : ℕ
  pub content_length : Option ℕ
  pub bytes : List ℕ
