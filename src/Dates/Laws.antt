-- ===== src/Dates/Laws.antt =====
-- `is_valid_date` of src/utils.c against the calendar.
use xprc_server_plugin_c.Common.{
  ℕ, ◌%◌, ◌≤◌, ◌≡◌, refl, Bool, true, false, ◌&&◌, ◌||◌, not, arith, ◌==◌, leb, if◌then◌else◌, ◌⊎◌,
}
use xprc_server_plugin_c.Common.Int.{ℤ, pos, negsuc}
use xprc_server_plugin_c.Dates.{XprcDate, is_valid_date, min_year, max_year}

-- The Gregorian rule.
abbrev pub is_leap_year : ℕ → Bool
is_leap_year y = (y % 4 == 0) && (not (y % 100 == 0) || (y % 400 == 0))

-- The days of a month by the calendar; 0 for a number that is no month.
unfoldable pub days_in_month : ℕ → ℕ → ℕ
days_in_month y m =
    if m == 2
    then (if is_leap_year y then 29 else 28)
    else if m == 4 || m == 6 || m == 9 || m == 11
    then 30
    else if leb 1 m && leb m 12
    then 31
    else 0

abbrev date : ℕ → ℕ → ℕ → XprcDate
date y m d = record { year = pos y; month = pos m; day = pos d }

-- The calendar's dates of the years that the code accepts.
abbrev pub IsCalendarDate : ℕ → ℕ → ℕ → Type 0
IsCalendarDate y m d =
    (min_year ≤ y) × (y ≤ max_year) × (1 ≤ m) × (m ≤ 12) × (1 ≤ d) × (d ≤ days_in_month y m)

-- Every calendar date of the years 1900 to 2100 is accepted, and what is accepted is a calendar date
-- except for 29 February in 1900 and in 2100.
pub is_valid_date-calendar :
    (y m d : ℕ)
    → (IsCalendarDate y m d
        → is_valid_date (record { year = pos y; month = pos m; day = pos d }) ≡ true)
      × (is_valid_date (record { year = pos y; month = pos m; day = pos d }) ≡ true
          → IsCalendarDate y m d ⊎ ((m ≡ 2) × (d ≡ 29) × ((y ≡ 1900) ⊎ (y ≡ 2100))))
unfolding is_valid_date days_in_month
is_valid_date-calendar y m d = (λ h. ground arith, λ h. ground arith)

-- A date with a negative field is refused.
pub is_valid_date-negative :
    (n : ℕ) (a b : ℤ)
    → (is_valid_date (record { year = negsuc n; month = a; day = b }) ≡ false)
      × (is_valid_date (record { year = a; month = negsuc n; day = b }) ≡ false)
      × (is_valid_date (record { year = a; month = b; day = negsuc n }) ≡ false)
unfolding is_valid_date
is_valid_date-negative n a b = (refl, ground arith, ground arith)
