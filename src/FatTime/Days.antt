-- ===== src/FatTime/Days.antt =====
-- The days of the Gregorian calendar, and their places in the eras that `civil_from_days` counts in.
use ctgpr_msc.Base.{
  ℕ, zero, suc, ◌+◌, ◌-◌, ◌*◌, ◌/◌, ◌%◌, ◌≤◌, ◌<◌, ◌≡◌, Bool, ◌&&◌, ◌||◌, not, ◌⊎◌, arith, ltb, leb,
  ◌==◌, if◌then◌else◌,
}
use ctgpr_msc.Base.Int.{pos}
use ctgpr_msc.FatTime.{
  Date, era, day_of_era, year_of_era, date_of_year, date_of_era, civil_from_days,
}

-- A day of the calendar, for years that are not negative.
pub record Day : Type 0 where
  pub year : ℕ
  pub month : ℕ
  pub day : ℕ

unfoldable pub is_leap : ℕ → Bool
is_leap y = (y % 4 == 0) && (not (y % 100 == 0) || (y % 400 == 0))

unfoldable pub month_days : ℕ → ℕ → ℕ
month_days y m =
    if (m == 4) || (m == 6) || (m == 9) || (m == 11)
    then 30
    else if m == 2
    then (if is_leap y then 29 else 28)
    else 31

unfoldable pub tomorrow : Day → Day
tomorrow t =
    if ltb t.day (month_days t.year t.month)
    then record t { day = t.day + 1 }
    else if ltb t.month 12
    then record t { month = t.month + 1; day = 1 }
    else record { year = t.year + 1; month = 1; day = 1 }

-- The day `n` days after 1970-01-01.
unfoldable pub day_number : ℕ → Day
day_number zero = record { year = 1970; month = 1; day = 1 }
day_number (suc n) = tomorrow (day_number n)

abbrev pub to_date : Day → Date
to_date t = record { year = pos t.year; month = t.month; day = t.day }

-- Days of an era before its year `y`, and of a year from March before its month `m`.
abbrev year_start : ℕ → ℕ
year_start y = 365 * y + y / 4 - y / 100

abbrev pub month_start : ℕ → ℕ
month_start m = (153 * m + 2) / 5

-- The number of a day counted in eras, years from March, months from March and days from 0.
abbrev pub number_of : ℕ → ℕ → ℕ → ℕ → ℕ
number_of e y m d = 146097 * e + (year_start y + (month_start m + d))

-- These four stand for a day.
pub record IsPlace (e y m d : ℕ) : Type 0 where
  pub year_in : y ≤ 399
  pub month_in : m ≤ 11
  pub day_in : month_start m + d < month_start (m + 1)
  pub fits :
      (year_start y + (month_start m + d) < year_start (y + 1))
      ⊎ ((y ≡ 399) × (month_start m + d ≤ 365))

unfoldable pub day_of : ℕ → ℕ → ℕ → ℕ → Day
day_of e y m d =
    let month = if ltb m 10 then m + 3 else m - 9 in
    let year = y + e * 400 in
    record { year = if leb month 2 then year + 1 else year; month = month; day = d + 1 }

-- The place of a day of the calendar that is `n` days after 0000-03-01.
pub record Stands (n : ℕ) (t : Day) : Type 0 where
  pub e : ℕ
  pub y : ℕ
  pub m : ℕ
  pub d : ℕ
  pub place : IsPlace e y m d
  pub number : number_of e y m d ≡ n
  pub shows : t ≡ day_of e y m d

year_of_era-place :
    (e y m d : ℕ) → IsPlace e y m d → year_of_era (year_start y + (month_start m + d)) ≡ y
unfolding year_of_era
year_of_era-place e y m d p = omega arith

date_of_year-place :
    (e y m d : ℕ)
    → IsPlace e y m d
    → date_of_year (pos e) y (month_start m + d) ≡ to_date (day_of e y m d)
unfolding date_of_year day_of
date_of_year-place e y m d p =
    let month : (5 * (month_start m + d) + 2) / 153 ≡ m = omega arith in rw month (ground arith)

date_of_era-place :
    (e y m d : ℕ)
    → IsPlace e y m d
    → date_of_era (pos e) (year_start y + (month_start m + d)) ≡ to_date (day_of e y m d)
unfolding date_of_era
date_of_era-place e y m d p =
    let rest : year_start y + (month_start m + d) - year_start y ≡ month_start m + d =
      omega arith in
    rw (year_of_era-place e y m d p, rest) (date_of_year-place e y m d p)

pub civil_from_days-place :
    (e y m d n : ℕ)
    → IsPlace e y m d
    → number_of e y m d ≡ n + 719468
    → civil_from_days (pos n) ≡ to_date (day_of e y m d)
unfolding civil_from_days era day_of_era
civil_from_days-place e y m d n p h =
    let era_is : (n + 719468) / 146097 ≡ e = omega arith in
    let rest : n + 719468 - e * 146097 ≡ year_start y + (month_start m + d) = omega arith in
    rw (era_is, rest) (date_of_era-place e y m d p)

-- Leap years recur with the era.
pub is_leap-era : (y e : ℕ) → is_leap (y + e * 400 + 1) ≡ is_leap (y + 1)
unfolding is_leap
is_leap-era y e = ground arith
