-- ===== src/Dates/Tests.antt =====
-- Runs of the date functions of src/utils.c and uses of their theorems at concrete dates.
use xprc_server_plugin_c.Common.Int.{pos}
use xprc_server_plugin_c.Common.Run.{ok}
use xprc_server_plugin_c.Common.{ℕ, ◌≡◌, refl, true, codes, arith, ◌⊎◌}
use xprc_server_plugin_c.Dates.Laws.{IsCalendarDate, is_valid_date-calendar, days_in_month}
use xprc_server_plugin_c.Dates.Iso.{parse_iso_date-iso}
use xprc_server_plugin_c.Dates.{is_valid_date, parse_iso_date}

century_leap_day : is_valid_date (record { year = pos 2100; month = pos 2; day = pos 29 }) ≡ true
unfolding is_valid_date
century_leap_day = refl

is_valid_date-calendar_example :
    (IsCalendarDate 1900 2 29
      → is_valid_date (record { year = pos 1900; month = pos 2; day = pos 29 }) ≡ true)
    × (is_valid_date (record { year = pos 1900; month = pos 2; day = pos 29 }) ≡ true
        → IsCalendarDate 1900 2 29
          ⊎ ((◌≡◌ {A = ℕ} 2 2)
              × (◌≡◌ {A = ℕ} 29 29)
              × ((◌≡◌ {A = ℕ} 1900 1900) ⊎ (◌≡◌ {A = ℕ} 1900 2100))))
is_valid_date-calendar_example = is_valid_date-calendar 1900 2 29

leap_day-IsCalendarDate : IsCalendarDate 2024 2 29
unfolding days_in_month
leap_day-IsCalendarDate = omega arith

parse_iso_date-iso_example :
    parse_iso_date (codes "2024-02-29T12:00")
    ≡ ok (record { year = pos 2024; month = pos 2; day = pos 29 })
parse_iso_date-iso_example =
    parse_iso_date-iso 2024 2 29 (codes "T12:00") leap_day-IsCalendarDate refl
