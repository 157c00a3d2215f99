-- ===== src/Taskbar/Updater/Ranges/Whole.antt =====
-- apps/codex-taskbar/src/updater.rs, `parallel_range_get`: the parts put together are the file.
use codex_quota_glance.Prelude.{
  ℕ, zero, suc, ◌+◌, ◌-◌, ◌*◌, ◌≤◌, ◌<◌, ◌≡◌, refl, sym, ap, ◌∙◌, min, List, [], ◌∷◌, ◌++◌, length,
  take, drop, length-drop, drop-drop, take_sum, take_up_to, drop_all, take_nil, Option, arith, inl,
  inr, ◌⊎◌, All,
}
use codex_quota_glance.Prelude.Results.{Result, ok}
use codex_quota_glance.Prelude.Bytes.{take_all, length-take}
use codex_quota_glance.Prelude.Words.{saturating_mul, u64_max}
use codex_quota_glance.Taskbar.Updater.Ranges.{
  Range, div_ceil, ranges, whole_part, fetch, insert_part, sort_parts, joined, check_output,
  parallel_range_get, Serves,
}
use codex_quota_glance.Taskbar.Updater.Data.{HttpResponse, UpdateError}
use native.Mathlib.Nat.{zero-mul, suc-mul}

-- The parts that a file has at the ranges.
abbrev slices : List ℕ → List Range → List (ℕ × List ℕ)
slices content [] = []
slices content (r ∷ rs) =
    (r.start, take (r.last - r.start + 1) (drop r.start content)) ∷ slices content rs

abbrev IsInside : List ℕ → Range → Type 0
IsInside content r = (r.start ≤ r.last) × (r.last < length content)

slice-whole :
    (content : List ℕ) (r : Range)
    → IsInside content r
    → length (take (r.last - r.start + 1) (drop r.start content)) ≡ r.last - r.start + 1
slice-whole content r i = omega (
  arith,
  i.0,
  i.1,
  length-take (r.last - r.start + 1) (drop r.start content),
  length-drop {0} r.start content,
)

whole_part_lem :
    (content : List ℕ) (r : Range) (n : Option ℕ) (bytes : List ℕ)
    → length bytes ≡ r.last - r.start + 1
    → whole_part r (record { status = 206; content_length = n; bytes = bytes })
      ≡ ok (r.start, bytes)
unfolding whole_part
whole_part_lem content r n bytes e = ground arith

module _ (content : List ℕ) (send : Range → Result UpdateError HttpResponse) where
  fetch_lem :
      (rs : List Range)
      → All (IsInside content) rs
      → Serves content send
      → fetch send rs ≡ ok (slices content rs)
  unfolding fetch
  fetch_lem [] i s = refl
  fetch_lem (r ∷ rs) i s =
      let bytes = take (r.last - r.start + 1) (drop r.start content) in
      rw
        (
          (s r).1,
          whole_part_lem content r (s r).0 bytes (slice-whole content r i.0),
          fetch_lem rs i.1 s,
        )
        refl

abbrev Ascends : ℕ → List Range → Type 0
Ascends low [] = Unit {0}
Ascends low (r ∷ rs) = (low ≤ r.start) × Ascends r.start rs

sort_slices :
    (content : List ℕ) (low : ℕ) (rs : List Range)
    → Ascends low rs
    → sort_parts (slices content rs) ≡ slices content rs
unfolding sort_parts insert_part
sort_slices content low [] a = refl
sort_slices content low (r ∷ []) a = refl
sort_slices content low (r ∷ (s ∷ rs)) a =
    rw (sort_slices content r.start (s ∷ rs) a.1) (ground (arith, a.1.0))

-- Whether the loop goes on.
ranges-cases :
    (n part size len : ℕ)
    → len ≤ u64_max
    → ((len ≤ part * size) × (ranges (suc n) part size len ≡ []))
      ⊎ ((part * size < len)
          × (ranges (suc n) part size len
              ≡ record { start = part * size; last = min (part * size + size - 1) (len - 1) }
                ∷ ranges n (suc part) size len))
unfolding ranges saturating_mul
ranges-cases n part size len h = ground arith

next_start : (part size : ℕ) → suc part * size ≡ part * size + size
next_start part size = suc-mul part size

ranges-IsInside :
    (content : List ℕ) (n part size : ℕ)
    → 1 ≤ size
    → length content ≤ u64_max
    → All (IsInside content) (ranges n part size (length content))
unfolding ranges
ranges-IsInside content zero part size p h = tt
ranges-IsInside content (suc n) part size p h = elim (ranges-cases n part size (length content) h) [
  | inl stop ↦ rw stop.1 tt
  | inr go ↦ rw go.1 (
    (omega (arith, go.0, p), omega (arith, go.0, p)),
    ranges-IsInside content n (suc part) size p h,
  )
]

ranges-Ascends :
    (n low part size len : ℕ)
    → low ≤ part * size
    → len ≤ u64_max
    → Ascends low (ranges n part size len)
unfolding ranges
ranges-Ascends zero low part size len l h = tt
ranges-Ascends (suc n) low part size len l h = elim (ranges-cases n part size len h) [
  | inl stop ↦ rw stop.1 tt
  | inr go ↦ rw go.1 (
    l,
    ranges-Ascends n (part * size) (suc part) size len (omega (arith, next_start part size)) h,
  )
]

-- The first of the ranges, at a place inside the file.
first_slice :
    (content : List ℕ) (at size : ℕ)
    → 1 ≤ size
    → at < length content
    → take (min (at + size - 1) (length content - 1) - at + 1) (drop at content)
      ≡ take size (drop at content)
first_slice content at size p h =
    let e : min (at + size - 1) (length content - 1) - at + 1
        ≡ min size (length (drop at content)) =
      omega (arith, length-drop at content, p, h) in
    ap (λ k. take k (drop at content)) e ∙ take_up_to size (drop at content)

join-slices :
    (content : List ℕ) (n part size : ℕ)
    → 1 ≤ size
    → length content ≤ u64_max
    → joined (slices content (ranges n part size (length content)))
      ≡ take (n * size) (drop (part * size) content)
unfolding ranges joined
join-slices content zero part size p h =
    sym (ap (λ k. take k (drop (part * size) content)) (zero-mul size))
join-slices content (suc n) part size p h =
    let at = part * size in
    elim (ranges-cases n part size (length content) h) [
      | inl stop ↦ rw (stop.1, drop_all at content stop.0, take_nil {A = ℕ} (suc n * size)) refl
      | inr go ↦
          rw
            (
              go.1,
              first_slice content at size p go.0,
              join-slices content n (suc part) size p h,
              next_start part size,
            )
            (ap (λ xs. take size (drop at content) ++ take (n * size) xs)
                (sym (drop-drop at size content))
              ∙ sym (take_sum size (n * size) (drop at content))
              ∙ ap (λ k. take k (drop at content)) (sym (suc-mul n size ∙ omega arith)))
    ]

div_ceil-covers : (n : ℕ) → n ≤ 4 * div_ceil n 4
div_ceil-covers n = omega arith

div_ceil-positive : (n : ℕ) → 1 ≤ n → 1 ≤ div_ceil n 4
div_ceil-positive n h = omega arith

check_output_lem :
    (content : List ℕ) (limit : ℕ)
    → length content ≤ limit
    → check_output (length content) limit content ≡ ok content
unfolding check_output
check_output_lem content limit h = ground arith

-- Against a server that answers every range with its bytes of a file, the download in four parts
-- of a file that is not empty, is within the limit and has a length in 64 bits, is the file.
pub parallel_range_get-whole :
    (content : List ℕ) (send : Range → Result UpdateError HttpResponse) (limit : ℕ)
    → Serves content send
    → 1 ≤ length content
    → length content ≤ limit
    → length content ≤ u64_max
    → parallel_range_get send (length content) limit ≡ ok content
unfolding parallel_range_get
parallel_range_get-whole content send limit s p l h =
    let size = div_ceil (length content) 4 in
    let positive = div_ceil-positive (length content) p in
    let rs = ranges 4 0 size (length content) in
    rw (fetch_lem content send rs (ranges-IsInside content 4 0 size positive h) s) (
      rw
        (
          sort_slices content 0 rs (ranges-Ascends 4 0 0 size (length content) (omega arith) h),
          join-slices content 4 0 size positive h,
        )
        (ap (λ k. check_output (length content) limit (take (4 * size) (drop k content)))
            (zero-mul size)
          ∙ ap (check_output (length content) limit)
              (take_all (4 * size) content (div_ceil-covers (length content)))
          ∙ check_output_lem content limit l))
