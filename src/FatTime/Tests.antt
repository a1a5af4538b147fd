-- ===== src/FatTime/Tests.antt =====
-- Runs and instances of the time stamp's theorems.
use ctgpr_msc.Base.{ℕ, ◌+◌, ◌*◌, ◌/◌, ◌%◌, ◌<◌, ◌≡◌, ◌≢◌, refl, arith}
use ctgpr_msc.Base.Int.{pos, negsuc}
use ctgpr_msc.FatTime.{
  era, day_of_era, year_of_era, date_of_year, date_of_era, civil_from_days, get_fattime, stamp_of,
}
use ctgpr_msc.FatTime.Calendar.{civil_from_days-day_number}
use ctgpr_msc.FatTime.Days.{day_number, to_date}
use ctgpr_msc.FatTime.Stamp.{get_fattime_lem, get_fattime_seconds}

civil_before_1970 : civil_from_days (negsuc 0) ≡ record { year = pos 1969; month = 12; day = 31 }
unfolding civil_from_days date_of_era date_of_year year_of_era era day_of_era
civil_before_1970 = refl

civil_leap_day : civil_from_days (pos 19782) ≡ record { year = pos 2024; month = 2; day = 29 }
unfolding civil_from_days date_of_era date_of_year year_of_era era day_of_era
civil_leap_day = refl

civil_from_days_example : civil_from_days (pos 59) ≡ to_date (day_number 59)
civil_from_days_example = civil_from_days-day_number 59

-- 2022-06-15 12:34:56
abbrev noon : ℕ
noon = 1655296496

get_fattime_example :
    let s = stamp_of (get_fattime noon) in
    let day = day_number (noon / 86400) in
    (s.year ≡ day.year)
    × (s.month ≡ day.month)
    × (s.day ≡ day.day)
    × (s.hour < 24)
    × (s.minute < 60)
    × (s.hour * 3600 + s.minute * 60 + noon % 60 ≡ noon % 86400)
get_fattime_example = get_fattime_lem noon (omega arith)

get_fattime_seconds_example : (stamp_of (get_fattime noon)).second ≢ 56
get_fattime_seconds_example = get_fattime_seconds noon (omega arith) (omega arith)
