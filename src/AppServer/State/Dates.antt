-- ===== src/AppServer/State/Dates.antt =====
-- crates/adapters-codex-app-server/src/state.rs: the dates and numbers that a response holds as
-- texts. A text is the list of its code points; a date and a number are ASCII.
use codex_quota_glance.Prelude.{
  ℕ, ◌+◌, ◌-◌, ◌*◌, ◌%◌, leb, ◌==◌, if◌then◌else◌, List, [], ◌∷◌, Option, none, some, Bool, true,
  false, not, ◌&&◌, ◌||◌,
}
use codex_quota_glance.Prelude.Words.{u64_max}

abbrev pub is_digit : ℕ → Bool
is_digit c = leb b'0' c && leb c b'9'

unfoldable pub all_digits : List ℕ → Bool
all_digits [] = true
all_digits (c ∷ cs) = is_digit c && all_digits cs

-- The number that digits stand for, after those in `n`.
unfoldable pub number_of : ℕ → List ℕ → ℕ
number_of n [] = n
number_of n (c ∷ cs) = number_of (n * 10 + (c - b'0')) cs

unfoldable pub is_leap : ℕ → Bool
is_leap year = year % 400 == 0 || (year % 4 == 0 && not (year % 100 == 0))

unfoldable pub days_in_month : (year month : ℕ) → ℕ
unfolding is_leap
days_in_month year month =
    if month == 2 && is_leap year
    then 29
    else if month == 2
    then 28
    else if month == 4 || (month == 6 || (month == 9 || month == 11))
    then 30
    else 31

unfoldable pub is_date : (year month day : ℕ) → Bool
unfolding days_in_month
is_date year month day =
    not (year == 0)
    && (leb 1 month && leb month 12)
    && (leb 1 day && leb day (days_in_month year month))

-- `YYYY-MM-DD`, and nothing else.
unfoldable pub is_valid_iso_date : List ℕ → Bool
unfolding all_digits number_of is_date
is_valid_iso_date (a ∷ b ∷ c ∷ d ∷ e ∷ f ∷ g ∷ h ∷ i ∷ k ∷ []) =
    e == b'-'
    && h == b'-'
    && all_digits (a ∷ b ∷ c ∷ d ∷ f ∷ g ∷ i ∷ k ∷ [])
    && is_date (number_of 0 (a ∷ b ∷ c ∷ d ∷ [])) (number_of 0 (f ∷ g ∷ []))
        (number_of 0 (i ∷ k ∷ []))
is_valid_iso_date _ = false

-- `str::parse::<u64>`: digits after a sign `+` that may be missing, without overflow.
unfoldable pub parse_digits : List ℕ → Option ℕ
unfolding all_digits number_of
parse_digits [] = none
parse_digits (c ∷ cs) =
    if all_digits (c ∷ cs) && leb (number_of 0 (c ∷ cs)) u64_max
    then some (number_of 0 (c ∷ cs))
    else none

unfoldable pub parse_u64 : List ℕ → Option ℕ
unfolding parse_digits
parse_u64 [] = none
parse_u64 (c ∷ cs) = if c == b'+' then parse_digits cs else parse_digits (c ∷ cs)
