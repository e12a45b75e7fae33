-- ===== src/Dates/Iso.antt =====
-- `parse_iso_date` of src/utils.c on the dates that ISO 8601 writes.
use xprc_server_plugin_c.Common.{
  ℕ, ◌+◌, ◌/◌, ◌%◌, ◌^◌, ◌≤◌, ◌<◌, ◌≡◌, refl, true, false, ◌||◌, arith, ◌==◌, ltb, all_below,
  all_below_sound, List, [], ◌∷◌, some, str_eq, str_eq_sound, length,
}
use xprc_server_plugin_c.Common.Int.{pos}
use xprc_server_plugin_c.Common.Run.{ok}
use xprc_server_plugin_c.Text.Numbers.{parse_integer-decimal}
use xprc_server_plugin_c.Text.{parse_int, decimal}
use xprc_server_plugin_c.Dates.Laws.{IsCalendarDate, days_in_month, is_valid_date-calendar}
use xprc_server_plugin_c.Dates.{valid_pattern, skip_zero, parse_iso_date}

-- The ISO form of a year, and of a month or day.
abbrev pub four_digits : ℕ → List ℕ → List ℕ
four_digits y rest =
    (b'0' + y / 1000) ∷ (b'0' + y / 100 % 10) ∷ (b'0' + y / 10 % 10) ∷ (b'0' + y % 10) ∷ rest

abbrev pub two_digits : ℕ → List ℕ → List ℕ
two_digits n rest = (b'0' + n / 10) ∷ (b'0' + n % 10) ∷ rest

abbrev pub iso_date : ℕ → ℕ → ℕ → List ℕ → List ℕ
iso_date y m d rest = four_digits y (b'-' ∷ two_digits m (b'-' ∷ two_digits d rest))

year_table : all_below 2200 (λ y. ltb y 1000 || str_eq (four_digits y []) (decimal (pos y))) ≡ true
unfolding all_below str_eq decimal
year_table = refl

small_table :
    all_below 100 (λ n. n == 0 || str_eq (skip_zero (two_digits n [])) (decimal (pos n))) ≡ true
unfolding all_below str_eq decimal skip_zero
small_table = refl

parse_int-decimal :
    (s : List ℕ) (n : ℕ) → n < 2 ^ 31 → s ≡ decimal (pos n) → parse_int s ≡ ok (some (pos n))
unfolding parse_int
parse_int-decimal s n h e = (parse_integer-decimal 32 s (pos n)).1 (e, ground arith)

parse_year : (y : ℕ) → 1000 ≤ y → y < 2200 → parse_int (four_digits y []) ≡ ok (some (pos y))
parse_year y low high =
    parse_int-decimal (four_digits y []) y (omega arith)
      (str_eq_sound _ _ (ground (arith, all_below_sound 2200 _ y year_table high)))

parse_small :
    (n : ℕ) → 1 ≤ n → n < 100 → parse_int (skip_zero (two_digits n [])) ≡ ok (some (pos n))
parse_small n low high =
    parse_int-decimal (skip_zero (two_digits n [])) n (omega arith)
      (str_eq_sound _ _ (ground (arith, all_below_sound 100 _ n small_table high)))

days_in_month-le : (y m : ℕ) → days_in_month y m ≤ 31
unfolding days_in_month
days_in_month-le y m = ground arith

-- What may follow the date: nothing, or a time behind `T`.
abbrev pub IsTimeSuffix : List ℕ → Type 0
IsTimeSuffix [] = Unit {0}
IsTimeSuffix (c ∷ s) = c ≡ b'T'

pattern_iso :
    (y m d : ℕ) (rest : List ℕ)
    → y < 10000
    → m < 100
    → d < 100
    → IsTimeSuffix rest
    → valid_pattern (iso_date y m d rest) ≡ true
unfolding valid_pattern
pattern_iso y m d [] hy hm hd t = ground arith
pattern_iso y m d (c ∷ rest) hy hm hd t = ground arith

-- Each calendar date of the years 1900 to 2100 in ISO form, with or without a time behind it, is
-- read as that date.
pub parse_iso_date-iso :
    (y m d : ℕ) (rest : List ℕ)
    → IsCalendarDate y m d
    → IsTimeSuffix rest
    → parse_iso_date (iso_date y m d rest)
      ≡ ok (record { year = pos y; month = pos m; day = pos d })
parse_iso_date-iso y m d rest date suffix =
    let (low, high, m1, m12, d1, dmax) = date in
    let short = days_in_month-le y m in
    let long : ltb (length (iso_date y m d rest)) 10 ≡ false = ground arith in
    let pattern_holds = pattern_iso y m d rest (omega arith) (omega arith) (omega arith) suffix in
    let valid = (is_valid_date-calendar y m d).0 date in
    unfold parse_iso_date in
    rw (
      long,
      pattern_holds,
      parse_year y (omega arith) (omega arith),
      parse_small m (omega arith) (omega arith),
      parse_small d (omega arith) (omega arith),
      valid,
    )
