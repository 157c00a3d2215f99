-- ===== src/Taskbar/Updater/Http.antt =====
-- apps/codex-taskbar/src/updater.rs: requests and downloads. WinHTTP is a parameter; what it reads
-- into the buffer of a size is no longer than that.
use codex_quota_glance.Prelude.{
  ℕ, ◌+◌, ◌-◌, ◌*◌, ltb, leb, if◌then◌else◌, ◌==◌, List, [], ◌∷◌, ◌++◌, length, take, Option, none,
  some, Bool, ◌&&◌,
}
use codex_quota_glance.Prelude.Results.{Result, ok, err, ◌>>=◌}
use codex_quota_glance.Prelude.Words.{saturating_add}
use codex_quota_glance.Taskbar.Updater.Data.{
  HttpResponse, UpdateError, http_status, response_too_large, invalid_url,
}
use codex_quota_glance.Taskbar.Updater.Names.{parse_https_url}
use codex_quota_glance.Taskbar.Updater.Ranges.{Range, parallel_range_get}

abbrev pub parallel_download_threshold : ℕ
parallel_download_threshold = 8 * 1024 * 1024

abbrev pub update_limit : ℕ
update_limit = 256 * 1024 * 1024

pub data Method : Type 0 where
  get head : Method

-- The bytes that are said to be there, and what is then read.
pub record Chunk : Type 0 where
  pub available : ℕ
  pub data_read : List ℕ

-- The chunks up to the end or a failure.
pub record Answer : Type 0 where
  pub status : ℕ
  pub content_length : Option ℕ
  pub chunks : List Chunk
  pub failure : Option UpdateError

abbrev pub at_end : Option UpdateError → List ℕ → Result UpdateError (List ℕ)
at_end none output = ok output
at_end (some e) output = err e

-- The loop that reads.
unfoldable pub read_chunks :
    (limit : ℕ) (failure : Option UpdateError) → List ℕ → List Chunk → Result UpdateError (List ℕ)
unfolding saturating_add
read_chunks limit failure output [] = at_end failure output
read_chunks limit failure output (c ∷ cs) =
    let rest = read_chunks limit failure (output ++ take c.available c.data_read) cs in
    if c.available == 0
    then ok output
    else (if ltb limit (saturating_add (length output) c.available)
        then err response_too_large
        else rest)

pub is_success : ℕ → Bool
is_success status = leb 200 status && ltb status 300

abbrev pub success_bytes : HttpResponse → Result UpdateError (List ℕ)
success_bytes x = if is_success x.status then ok x.bytes else err (http_status x.status)

-- Any error of the first is passed over.
abbrev pub or_otherwise :
    Result UpdateError (List ℕ) → Result UpdateError (List ℕ) → Result UpdateError (List ℕ)
or_otherwise (ok bytes) other = ok bytes
or_otherwise (err e) other = other

-- `send` is given the host, the port and the path.
module _ (send : List ℕ × (ℕ × List ℕ) → Method → Option Range → Result UpdateError Answer) where
  unfoldable pub http_request :
      (url : List ℕ) → Method → Option Range → (limit : ℕ) → Result UpdateError HttpResponse
  unfolding parse_https_url read_chunks
  http_request url method range limit = parse_https_url url >>= λ address.
      send address method range >>= λ a. read_chunks limit a.failure [] a.chunks >>= λ bytes.
      ok (record { status = a.status; content_length = a.content_length; bytes = bytes })

  unfoldable pub http_get : (url : List ℕ) (limit : ℕ) → Result UpdateError (List ℕ)
  unfolding http_request is_success
  http_get url limit = http_request url get none limit >>= success_bytes

  pub request_part : List ℕ → Range → Result UpdateError HttpResponse
  unfolding http_request
  request_part url r = http_request url get (some r) (r.last - r.start + 1)

  -- The parts, where the answer to a `HEAD` request allows them.
  unfoldable pub in_parts :
      (url : List ℕ) (limit status : ℕ) → Option ℕ → Result UpdateError (List ℕ)
  unfolding parallel_range_get request_part is_success
  in_parts url limit status none = err invalid_url
  in_parts url limit status (some len) =
      if is_success status && (leb parallel_download_threshold len && leb len limit)
      then parallel_range_get (request_part url) len limit
      else err invalid_url

  unfoldable pub download_parts : (url : List ℕ) (limit : ℕ) → Result UpdateError (List ℕ)
  unfolding http_request in_parts
  download_parts url limit =
      http_request url head none 0 >>= λ x. in_parts url limit x.status x.content_length

  unfoldable pub download_asset :
      (url : List ℕ) (limit : ℕ) (adaptive : Bool) → Result UpdateError (List ℕ)
  unfolding download_parts http_get
  download_asset url limit adaptive =
      if adaptive
      then or_otherwise (download_parts url limit) (http_get url limit)
      else http_get url limit
