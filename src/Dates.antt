-- ===== src/Dates.antt =====
-- `is_valid_date` and `parse_iso_date` of src/utils.c, over the numbers that `parse_int` of that
-- file reads.
pub mod Laws
pub mod Iso
mod Tests
use xprc_server_plugin_c.Common.{
  ℕ, ◌+◌, ◌-◌, ◌*◌, ◌%◌, Bool, true, false, ◌&&◌, ◌||◌, Option, none, some, List, ltb, leb, ◌==◌,
  if◌then◌else◌, get_or, length, [], ◌∷◌, take, drop, not,
}
use xprc_server_plugin_c.Common.Int.{ℤ, pos, negsuc}
use xprc_server_plugin_c.Common.Run.{Run, ok, fault, ◌>>=◌}
use xprc_server_plugin_c.Text.{parse_int}

abbrev pub min_year : ℕ
min_year = 1900

abbrev pub max_year : ℕ
max_year = 2100

pub record XprcDate : Type 0 where
  pub year : ℤ
  pub month : ℤ
  pub day : ℤ

abbrev pub invalid_date : XprcDate
invalid_date = record { year = negsuc 0; month = negsuc 0; day = negsuc 0 }

-- A field `x` of `low <= x && x <= high`, for bounds that are not negative.
abbrev between : ℕ → ℤ → ℕ → Bool
between low (pos x) high = leb low x && leb x high
between low (negsuc x) high = false

abbrev equals : ℤ → ℕ → Bool
equals (pos x) n = x == n
equals (negsuc x) n = false

abbrev divisible_by_four : ℤ → Bool
divisible_by_four (pos y) = y % 4 == 0
divisible_by_four (negsuc y) = (y + 1) % 4 == 0

-- `max_days` of `is_valid_date`
unfoldable pub max_days : ℤ → ℤ → ℕ
max_days year month =
    if equals month 2
    then (if divisible_by_four year then 29 else 28)
    else if equals month 4 || equals month 6 || equals month 9 || equals month 11
    then 30
    else 31

unfoldable pub is_valid_date : XprcDate → Bool
unfolding max_days
is_valid_date date =
    between min_year date.year max_year
    && between 1 date.month 12
    && between 1 date.day (max_days date.year date.month)

unfoldable pub is_digit : ℕ → Bool
is_digit ch = leb b'0' ch && leb ch b'9'

digit_at : List ℕ → ℕ → Bool
digit_at s i = is_digit (get_or s i 0)

-- YYYY-MM-DD, and `T` behind it if there is more.
unfoldable pub valid_pattern : List ℕ → Bool
unfolding digit_at is_digit
valid_pattern s =
    digit_at s 0
    && digit_at s 1
    && digit_at s 2
    && digit_at s 3
    && (get_or s 4 0 == b'-')
    && digit_at s 5
    && digit_at s 6
    && (get_or s 7 0 == b'-')
    && digit_at s 8
    && digit_at s 9
    && (not (ltb 10 (length s)) || (get_or s 10 0 == b'T'))

-- A leading zero is skipped, since `parse_int` takes no other form than its own.
unfoldable pub skip_zero : List ℕ → List ℕ
skip_zero [] = []
skip_zero (c ∷ s) = if c == b'0' then s else c ∷ s

checked : XprcDate → XprcDate
checked out = if is_valid_date out then out else invalid_date

read_day : ℤ → ℤ → Option ℤ → XprcDate
read_day year month none = invalid_date
read_day year month (some day) = checked (record { year = year; month = month; day = day })

read_month : List ℕ → ℤ → Option ℤ → Run XprcDate
read_month s year none = ok invalid_date
read_month s year (some month) = do
  day ← parse_int (skip_zero (take 2 (drop 8 s)))
  ok (read_day year month day)

read_year : List ℕ → Option ℤ → Run XprcDate
read_year s none = ok invalid_date
read_year s (some year) = do
  month ← parse_int (skip_zero (take 2 (drop 5 s)))
  read_month s year month

-- The copy of the string is cut at 4, 7 and 10, and its parts are parsed in order.
unfoldable pub parse_iso_date : List ℕ → Run XprcDate
unfolding read_year read_month read_day checked
parse_iso_date s =
    if ltb (length s) 10
    then ok invalid_date
    else if not (valid_pattern s)
    then ok invalid_date
    else (do year ← parse_int (take 4 s); read_year s year)
