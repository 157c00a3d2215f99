-- ===== src/Taskbar/Updater/Limits.antt =====
-- apps/codex-taskbar/src/updater.rs: a download is within its limit, and a
-- staged update has the digest of its release.
use codex_quota_glance.Prelude.{
  ℕ, ap, ◌∙◌, subst, sym, ◌≤◌, ◌<◌, ◌≡◌, leb, ltb, ◌==◌, List, [], ◌∷◌, ◌++◌, length, length-append,
  take, Option, none, some, Bool, true, false, ◌&&◌, ◌||◌, not, arith, Bool-cases, inl, inr,
}
use codex_quota_glance.Prelude.Results.{Result, ok, err, ◌>>=◌}
use codex_quota_glance.Prelude.Bytes.{length-take}
use codex_quota_glance.Prelude.Words.{saturating_add, u64_max}
use codex_quota_glance.Prelude.Text.{same_codes-eq}
use codex_quota_glance.Taskbar.Updater.Data.{HttpResponse, UpdateError, ReleaseInfo}
use codex_quota_glance.Taskbar.Updater.Names.{parse_https_url}
use codex_quota_glance.Taskbar.Updater.Ranges.{
  Range, parallel_range_get, fetch, ranges, joined, sort_parts, check_output, div_ceil,
  parallel_download_parts,
}
use codex_quota_glance.Taskbar.Updater.Http.{
  Method, get, head, Chunk, Answer, at_end, read_chunks, is_success, success_bytes, or_otherwise,
  http_request, http_get, request_part, in_parts, download_parts, download_asset, update_limit,
  parallel_download_threshold,
}
use codex_quota_glance.Taskbar.Updater.Releases.{Staged, stage, download_and_stage}

-- The bytes, if there are any, are at most so many.
abbrev Within : ℕ → Result UpdateError (List ℕ) → Type 0
Within limit (ok bytes) = length bytes ≤ limit
Within limit (err e) = Unit

abbrev IsWithin : ℕ → Result UpdateError HttpResponse → Type 0
IsWithin limit (ok x) = length x.bytes ≤ limit
IsWithin limit (err e) = Unit

at_end-Within :
    (limit : ℕ) (failure : Option UpdateError) (output : List ℕ)
    → length output ≤ limit
    → Within limit (at_end failure output)
at_end-Within limit none output h = h
at_end-Within limit (some e) output h = tt

length-read :
    (limit n : ℕ) (output bytes : List ℕ)
    → limit < u64_max
    → ltb limit (saturating_add (length output) n) ≡ false
    → length (output ++ take n bytes) ≤ limit
unfolding saturating_add
length-read limit n output bytes l h =
    ground (arith, length-append output (take n bytes), length-take n bytes)

read_chunks-Within :
    (limit : ℕ) (failure : Option UpdateError) (output : List ℕ) (cs : List Chunk)
    → limit < u64_max
    → length output ≤ limit
    → Within limit (read_chunks limit failure output cs)
unfolding read_chunks
read_chunks-Within limit failure output [] l h = at_end-Within limit failure output h
read_chunks-Within limit failure output (c ∷ cs) l h = elim (Bool-cases (c.available == 0)) [
  | inl e ↦ rw e h
  | inr e ↦ elim (Bool-cases (ltb limit (saturating_add (length output) c.available))) [
    | inl large ↦ rw (e, large) tt
    | inr small ↦
        rw (e, small)
          (read_chunks-Within limit failure (output ++ take c.available c.data_read) cs l
            (length-read limit c.available output c.data_read l small))
  ]
]

with_status-IsWithin :
    (limit status : ℕ) (content_length : Option ℕ) (bytes : Result UpdateError (List ℕ))
    → Within limit bytes
    → IsWithin limit
        (bytes >>= λ b. ok (record { status = status; content_length = content_length; bytes = b }))
with_status-IsWithin limit status content_length (ok bytes) h = h
with_status-IsWithin limit status content_length (err e) h = tt

success_bytes-Within :
    (limit : ℕ) (x : Result UpdateError HttpResponse)
    → IsWithin limit x
    → Within limit (x >>= success_bytes)
success_bytes-Within limit (ok x) h = elim (Bool-cases (is_success x.status)) [
  | inl e ↦ rw e h
  | inr e ↦ rw e tt
]
success_bytes-Within limit (err e) h = tt

check_output-Within :
    (len limit : ℕ) (output : List ℕ) → Within limit (check_output len limit output)
unfolding check_output
check_output-Within len limit output =
    elim (Bool-cases (not (length output == len) || ltb limit (length output))) [
      | inl e ↦ rw e tt
      | inr e ↦ rw e (ground arith)
    ]

parts-Within :
    (len limit : ℕ) (parts : Result UpdateError (List (ℕ × List ℕ)))
    → Within limit (parts >>= λ ps. check_output len limit (joined (sort_parts ps)))
parts-Within len limit (ok ps) = check_output-Within len limit (joined (sort_parts ps))
parts-Within len limit (err e) = tt

or_otherwise-Within :
    (limit : ℕ) (x y : Result UpdateError (List ℕ))
    → Within limit x
    → Within limit y
    → Within limit (or_otherwise x y)
or_otherwise-Within limit (ok bytes) y h k = h
or_otherwise-Within limit (err e) y h k = k

module _ (send : List ℕ × (ℕ × List ℕ) → Method → Option Range → Result UpdateError Answer) where
  answer-IsWithin :
      (limit : ℕ) (a : Result UpdateError Answer)
      → limit < u64_max
      → IsWithin limit (
          a >>= λ x. read_chunks limit x.failure [] x.chunks >>= λ b.
          ok (record { status = x.status; content_length = x.content_length; bytes = b }))
  answer-IsWithin limit (ok a) l =
      with_status-IsWithin limit a.status a.content_length (read_chunks limit a.failure [] a.chunks)
        (read_chunks-Within limit a.failure [] a.chunks l (omega arith))
  answer-IsWithin limit (err e) l = tt

  address-IsWithin :
      (limit : ℕ) (method : Method) (range : Option Range)
      (address : Result UpdateError (List ℕ × (ℕ × List ℕ)))
      → limit < u64_max
      → IsWithin limit (
          address >>= λ d. send d method range >>= λ x.
          read_chunks limit x.failure [] x.chunks >>= λ b.
          ok (record { status = x.status; content_length = x.content_length; bytes = b }))
  address-IsWithin limit method range (ok d) l = answer-IsWithin limit (send d method range) l
  address-IsWithin limit method range (err e) l = tt

  http_get-Within :
      (url : List ℕ) (limit : ℕ) → limit < u64_max → Within limit (http_get send url limit)
  unfolding http_get http_request
  http_get-Within url limit l =
      success_bytes-Within limit (http_request send url get none limit)
        (address-IsWithin limit get none (parse_https_url url) l)

  in_parts-Within :
      (url : List ℕ) (limit status : ℕ) (len : Option ℕ)
      → Within limit (in_parts send url limit status len)
  unfolding in_parts parallel_range_get
  in_parts-Within url limit status none = tt
  in_parts-Within url limit status (some len) =
      elim (Bool-cases
        (is_success status && (leb parallel_download_threshold len && leb len limit))) [
          | inl e ↦ rw e (
              parts-Within len limit (
                fetch (request_part send url)
                  (ranges parallel_download_parts 0 (div_ceil len parallel_download_parts) len)))
          | inr e ↦ rw e tt
        ]

  download_parts-Within :
      (url : List ℕ) (limit : ℕ) (x : Result UpdateError HttpResponse)
      → Within limit (x >>= λ y. in_parts send url limit y.status y.content_length)
  download_parts-Within url limit (ok x) = in_parts-Within url limit x.status x.content_length
  download_parts-Within url limit (err e) = tt

  -- A download of any kind gives at most as many bytes as its limit says, whatever the server
  -- sends, for a limit below the largest 64-bit number.
  download_asset-Within :
      (url : List ℕ) (limit : ℕ) (adaptive : Bool)
      → limit < u64_max
      → Within limit (download_asset send url limit adaptive)
  unfolding download_asset download_parts
  download_asset-Within url limit true l =
      or_otherwise-Within limit (download_parts send url limit) (http_get send url limit)
        (download_parts-Within url limit (http_request send url head none 0))
        (http_get-Within url limit l)
  download_asset-Within url limit false l = http_get-Within url limit l

stage-ok :
    (digest : List ℕ → List ℕ) (writes : Staged → Bool) (stamp : ℕ) (release : ReleaseInfo)
    (bytes : List ℕ) (staged : Staged)
    → stage digest writes stamp release bytes ≡ ok staged
    → (digest bytes ≡ release.sha256) × ((staged.bytes ≡ bytes) × (writes staged ≡ true))
unfolding stage
stage-ok digest writes stamp release bytes staged h =
    ground (arith, same_codes-eq (digest bytes) release.sha256)

download_and_stage-from :
    (digest : List ℕ → List ℕ) (writes : Staged → Bool) (stamp : ℕ) (release : ReleaseInfo)
    (bytes : Result UpdateError (List ℕ)) (staged : Staged)
    → Within update_limit bytes
    → (bytes >>= λ b. stage digest writes stamp release b) ≡ ok staged
    → (digest staged.bytes ≡ release.sha256)
      × ((length staged.bytes ≤ update_limit) × (writes staged ≡ true))
download_and_stage-from digest writes stamp release (ok bytes) staged w h =
    let s = stage-ok digest writes stamp release bytes staged h in
    (ap digest s.1.0 ∙ s.0, (subst (λ b. length b ≤ update_limit) (sym s.1.0) w, s.1.1))
download_and_stage-from digest writes stamp release (err e) staged w h = cc

-- A staged update has the digest that its release names, has at most 256 MiB, and was written,
-- whatever the server sends.
pub download_and_stage-safe :
    (send : List ℕ × (ℕ × List ℕ) → Method → Option Range → Result UpdateError Answer)
    (digest : List ℕ → List ℕ) (writes : Staged → Bool) (stamp : ℕ) (release : ReleaseInfo)
    (adaptive : Bool) (staged : Staged)
    → download_and_stage send digest writes stamp release adaptive ≡ ok staged
    → (digest staged.bytes ≡ release.sha256)
      × ((length staged.bytes ≤ update_limit) × (writes staged ≡ true))
unfolding download_and_stage
download_and_stage-safe send digest writes stamp release adaptive staged =
    download_and_stage-from digest writes stamp release
      (download_asset send release.download_url update_limit adaptive) staged
      (download_asset-Within send release.download_url update_limit adaptive (omega arith))
