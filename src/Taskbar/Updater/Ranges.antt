-- ===== src/Taskbar/Updater/Ranges.antt =====
-- apps/codex-taskbar/src/updater.rs: a download in four parts. The requests are a parameter; the
-- threads that make them are joined in order. The end of a part is not reduced modulo 2^64, which
-- differs from the code for a length within 3 of that only.
pub mod Whole
use codex_quota_glance.Prelude.{
  ℕ, zero, suc, ◌+◌, ◌-◌, ◌*◌, ◌/◌, ◌≤◌, ◌<◌, ◌≡◌, refl, sym, ap, ◌∙◌, subst, min, ltb, leb, ◌==◌,
  if◌then◌else◌, List, [], ◌∷◌, ◌++◌, length, take, drop, length-drop, drop-drop, take_sum,
  take_up_to, drop_all, take_nil, Bool, true, false, not, ◌&&◌, ◌||◌, Option, arith, Bool-cases,
  inl, inr, append-nil, All,
}
use codex_quota_glance.Taskbar.Updater.Data.{HttpResponse, UpdateError, http}
use codex_quota_glance.Prelude.Results.{Result, ok, err, ◌>>=◌}
use codex_quota_glance.Prelude.Bytes.{take_all, length-take}
use codex_quota_glance.Prelude.Words.{saturating_mul, u64_max}

abbrev pub parallel_download_parts : ℕ
parallel_download_parts = 4

-- The first and the last byte.
pub record Range : Type 0 where
  pub start : ℕ
  pub last : ℕ

-- `u64::div_ceil` by a positive number.
abbrev pub div_ceil : ℕ → ℕ → ℕ
div_ceil n k = (n + (k - 1)) / k

-- The `for` loop over the parts, from one on.
pub ranges : (parts part : ℕ) (part_size length : ℕ) → List Range
ranges zero part part_size len = []
ranges (suc parts) part part_size len =
    let start = saturating_mul part part_size in
    let rest = ranges parts (suc part) part_size len in
    if leb len start
    then []
    else record { start = start; last = min (start + part_size - 1) (len - 1) } ∷ rest

-- A part is taken only if it is whole.
whole_part : Range → HttpResponse → Result UpdateError (ℕ × List ℕ)
whole_part r x =
    if not (x.status == 206) || not (length x.bytes == r.last - r.start + 1)
    then err (http "服务器未按 Range 返回完整分块")
    else ok (r.start, x.bytes)

module _ (send : Range → Result UpdateError HttpResponse) where
  pub fetch : List Range → Result UpdateError (List (ℕ × List ℕ))
  unfolding whole_part
  fetch [] = ok []
  fetch (r ∷ rs) = send r >>= λ x. whole_part r x >>= λ part. fetch rs >>= λ rest. ok (part ∷ rest)

-- `sort_by_key`, which is stable.
insert_part : ℕ × List ℕ → List (ℕ × List ℕ) → List (ℕ × List ℕ)
insert_part p [] = p ∷ []
insert_part p (q ∷ qs) = if leb p.0 q.0 then p ∷ q ∷ qs else q ∷ insert_part p qs

pub sort_parts : List (ℕ × List ℕ) → List (ℕ × List ℕ)
unfolding insert_part
sort_parts [] = []
sort_parts (p ∷ ps) = insert_part p (sort_parts ps)

pub joined : List (ℕ × List ℕ) → List ℕ
joined [] = []
joined (p ∷ ps) = p.1 ++ joined ps

unfoldable pub check_output : (len limit : ℕ) → List ℕ → Result UpdateError (List ℕ)
check_output len limit output =
    if not (length output == len) || ltb limit (length output)
    then err (http "分块合并后的安装包长度不匹配")
    else ok output

unfoldable pub parallel_range_get :
    (send : Range → Result UpdateError HttpResponse) (len limit : ℕ) → Result UpdateError (List ℕ)
unfolding ranges fetch sort_parts joined check_output
parallel_range_get send len limit =
    fetch send (ranges parallel_download_parts 0 (div_ceil len parallel_download_parts) len)
    >>= λ parts. check_output len limit (joined (sort_parts parts))

-- The server sends the bytes of a file that a range names.
abbrev pub Serves : List ℕ → (Range → Result UpdateError HttpResponse) → Type 0
Serves content send =
    (r : Range)
    → (n : Option ℕ) × (send r
        ≡ ok (record {
          status = 206;
          content_length = n;
          bytes = take (r.last - r.start + 1) (drop r.start content);
        }))
