-- ===== src/AppServer/State/Usage/Days.antt =====
-- What the days of a response are.
use codex_quota_glance.Prelude.{
  ℕ, inl, inr, Bool-cases, zero, suc, ◌-◌, ◌≤◌, ◌≡◌, refl, List, [], ◌∷◌, length, Option, none,
  some, true, false, String, All, arith, ◌>>=◌,
}
use codex_quota_glance.Prelude.Text.{codes, trim, same_codes, same_codes-eq}
use codex_quota_glance.Domain.Official.{OfficialDailyUsage}
use codex_quota_glance.AppServer.Json.{Json}
use codex_quota_glance.AppServer.State.Dates.{is_valid_iso_date}
use codex_quota_glance.AppServer.State.Usage.{
  max_daily_usage_buckets, before, insert_day, skip, insert_bucket, take_bucket, parse_buckets,
  last_days, buckets_of, parse_daily_usage_buckets,
}

-- The days rise.
abbrev pub Above : OfficialDailyUsage → List OfficialDailyUsage → Type 0
Above day [] = Unit {0}
Above day (next ∷ days) = (before (codes day.date) (codes next.date) ≡ true) × Above next days

abbrev pub IsSorted : List OfficialDailyUsage → Type 0
IsSorted [] = Unit {0}
IsSorted (day ∷ days) = Above day days

abbrev pub HasDates : List OfficialDailyUsage → Type 0
HasDates days = All (λ day. is_valid_iso_date (codes day.date) ≡ true) days

before-other :
    (xs ys : List ℕ) → same_codes xs ys ≡ false → before xs ys ≡ false → before ys xs ≡ true
unfolding before same_codes
before-other [] [] h k = cc
before-other [] (b ∷ bs) h k = cc
before-other (a ∷ cs) [] h k = refl
before-other (a ∷ cs) (b ∷ bs) h k = ground (arith, before-other cs bs)

Above-replace :
    (date : String) (tokens : ℕ) (day : OfficialDailyUsage) (days : List OfficialDailyUsage)
    → same_codes (codes date) (codes day.date) ≡ true
    → Above day days
    → Above (record { date = date; tokens = tokens }) days
Above-replace date tokens day [] e h = tt
Above-replace date tokens day (next ∷ days) e h =
    ground (arith, same_codes-eq (codes date) (codes day.date))

Above-insert :
    (low : OfficialDailyUsage) (date : String) (tokens : ℕ) (days : List OfficialDailyUsage)
    → before (codes low.date) (codes date) ≡ true
    → Above low days
    → Above low (insert_day date tokens days)
unfolding insert_day
Above-insert low date tokens [] b h = (b, tt)
Above-insert low date tokens (day ∷ days) b h = ground (
  arith,
  Above-insert day date tokens days,
  Above-replace date tokens day days,
  before-other (codes date) (codes day.date),
  same_codes-eq (codes date) (codes day.date),
)

insert_day-IsSorted :
    (date : String) (tokens : ℕ) (days : List OfficialDailyUsage)
    → IsSorted days
    → IsSorted (insert_day date tokens days)
unfolding insert_day
insert_day-IsSorted date tokens [] h = tt
insert_day-IsSorted date tokens (day ∷ days) h = ground (
  arith,
  Above-insert day date tokens days,
  Above-replace date tokens day days,
  before-other (codes date) (codes day.date),
)

insert_day-HasDates :
    (date : String) (tokens : ℕ) (days : List OfficialDailyUsage)
    → is_valid_iso_date (codes date) ≡ true
    → HasDates days
    → HasDates (insert_day date tokens days)
unfolding insert_day
insert_day-HasDates date tokens [] v h = (v, tt)
insert_day-HasDates date tokens (day ∷ days) v h =
    ground (arith, insert_day-HasDates date tokens days v h.1)

-- Rising days with dates.
abbrev pub IsHistory : List OfficialDailyUsage → Type 0
IsHistory days = IsSorted days × HasDates days

insert_bucket-IsHistory :
    (days : List OfficialDailyUsage) (date : Option String) (tokens : Option ℕ)
    → IsHistory days
    → IsHistory (insert_bucket days date tokens)
unfolding insert_bucket
insert_bucket-IsHistory days none tokens h = h
insert_bucket-IsHistory days (some date) none h = h
insert_bucket-IsHistory days (some date) (some tokens) h =
    elim (Bool-cases (is_valid_iso_date (codes (trim date)))) [
      | inl v ↦ rw v (
        insert_day-IsSorted (trim date) tokens days h.0,
        insert_day-HasDates (trim date) tokens days v h.1,
      )
      | inr v ↦ rw v h
    ]

Above-IsSorted :
    (day : OfficialDailyUsage) (days : List OfficialDailyUsage) → Above day days → IsSorted days
Above-IsSorted day [] h = tt
Above-IsSorted day (next ∷ days) h = h.1

skip-IsHistory : (n : ℕ) (days : List OfficialDailyUsage) → IsHistory days → IsHistory (skip n days)
unfolding skip
skip-IsHistory zero days h = h
skip-IsHistory (suc n) [] h = h
skip-IsHistory (suc n) (day ∷ days) h = skip-IsHistory n days (Above-IsSorted day days h.0, h.1.1)

length-skip : {A : Type 0} (n : ℕ) (xs : List A) → length (skip n xs) ≡ length xs - n
unfolding skip
length-skip zero xs = omega arith
length-skip (suc n) [] = omega arith
length-skip (suc n) (x ∷ xs) = omega (arith, length-skip n xs)

module _ {V : Type 0} ⦃j : Json V⦄ where
  take_bucket-IsHistory :
      (days : List OfficialDailyUsage) (bucket : V)
      → IsHistory days
      → IsHistory (take_bucket days bucket)
  unfolding take_bucket
  take_bucket-IsHistory days bucket h = elim (Bool-cases (j.is_object bucket)) [
    | inl o ↦ rw o (insert_bucket-IsHistory days _ _ h)
    | inr o ↦ rw o h
  ]

  parse_buckets-IsHistory :
      (buckets : List V) (days : List OfficialDailyUsage)
      → IsHistory days
      → IsHistory (parse_buckets days buckets)
  unfolding parse_buckets
  parse_buckets-IsHistory [] days h = h
  parse_buckets-IsHistory (bucket ∷ buckets) days h =
      parse_buckets-IsHistory buckets (take_bucket days bucket)
        (take_bucket-IsHistory days bucket h)

  buckets_of-IsHistory :
      (o : Option (List V))
      → IsHistory (buckets_of o) × (length (buckets_of o) ≤ max_daily_usage_buckets)
  unfolding buckets_of last_days
  buckets_of-IsHistory none = ((tt, tt), omega arith)
  buckets_of-IsHistory (some buckets) =
      let days = parse_buckets [] buckets in
      (
        skip-IsHistory (length days - max_daily_usage_buckets) days
            (parse_buckets-IsHistory buckets [] (tt, tt)),
        omega (arith, length-skip (length days - max_daily_usage_buckets) days),
      )

  -- Whatever the server sends, the daily usage is at most ninety days, each with a date of the
  -- calendar, in rising order and so no date twice.
  pub parse_daily_usage_buckets-IsHistory :
      (value : Option V)
      → IsHistory (parse_daily_usage_buckets value)
        × (length (parse_daily_usage_buckets value) ≤ max_daily_usage_buckets)
  unfolding parse_daily_usage_buckets
  parse_daily_usage_buckets-IsHistory value = buckets_of-IsHistory (value >>= j.as_array)
