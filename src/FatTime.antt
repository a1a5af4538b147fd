-- ===== src/FatTime.antt =====
-- The FAT time stamp of ios/Disk/FatFS.cpp: the calendar date of a day count (`civil_from_days`),
-- and the 32 bits that `get_fattime` packs it into. Day counts are in ℤ, the arithmetic of `s32`
-- without its overflow; the clock (`System::GetTime`) is an argument.
pub mod Days
pub mod Calendar
pub mod Stamp
mod Tests
use ctgpr_msc.Base.{ℕ, suc, ◌+◌, ◌-◌, ◌*◌, ◌/◌, ◌%◌, ◌^◌, ltb, leb, if◌then◌else◌}
use ctgpr_msc.Base.Int.{ℤ, pos, negsuc, sub_ℕ, add_ℤ}
use ctgpr_msc.Base.Words.{low_bits, shr}

-- The tuple that `civil_from_days` returns.
pub record Date : Type 0 where
  pub year : ℤ
  pub month : ℕ
  pub day : ℕ

-- `(z >= 0 ? z : z - 146096) / 146097`, with the division of C.
pub era : ℤ → ℤ
era (pos n) = pos (n / 146097)
era (negsuc n) = sub_ℕ 0 ((suc n + 146096) / 146097)

-- `z - era * 146097`, at the two cases of `era`.
pub day_of_era : ℤ → ℕ
day_of_era (pos n) = n - n / 146097 * 146097
day_of_era (negsuc n) = (suc n + 146096) / 146097 * 146097 - suc n

pub year_of_era : ℕ → ℕ
year_of_era doe = (doe - doe / 1460 + doe / 36524 - doe / 146096) / 365

-- `era * 400`
abbrev times_400 : ℤ → ℤ
times_400 (pos n) = pos (n * 400)
times_400 (negsuc n) = sub_ℕ 0 (suc n * 400)

-- The part of `civil_from_days` below `doy`.
pub date_of_year : ℤ → ℕ → ℕ → Date
date_of_year e yoe doy =
    let mp = (5 * doy + 2) / 153 in
    let d = doy - (153 * mp + 2) / 5 + 1 in
    let m = if ltb mp 10 then mp + 3 else mp - 9 in
    let y = add_ℤ (times_400 e) yoe in
    record { year = if leb m 2 then add_ℤ y 1 else y; month = m; day = d }

-- The part below `doe`.
pub date_of_era : ℤ → ℕ → Date
date_of_era e doe =
    let yoe = year_of_era doe in date_of_year e yoe (doe - (365 * yoe + yoe / 4 - yoe / 100))

pub civil_from_days : ℤ → Date
civil_from_days z = let z' = add_ℤ z 719468 in date_of_era (era z') (day_of_era z')

-- The low 32 bits of a `u64`, read as an `s32`.
abbrev pub to_s32 : ℕ → ℤ
to_s32 n = let w = n % 2 ^ 32 in if ltb w (2 ^ 31) then pos w else negsuc (2 ^ 32 - 1 - w)

-- The low 7 bits of `year - 1980`; 2048 is a multiple of 128 above 1980.
abbrev pub year_field : ℤ → ℕ
year_field (pos n) = (n + 2048 - 1980) % 128
year_field (negsuc n) = (128 - (suc n + 1980) % 128) % 128

-- The bit field `fattime`, first member in the highest bits, as the big-endian processor lays it
-- out. Each member keeps the low bits that it has room for.
pub record FatStamp : Type 0 where
  pub year : ℕ
  pub month : ℕ
  pub day : ℕ
  pub hour : ℕ
  pub minute : ℕ
  pub second : ℕ

abbrev pub word_of : FatStamp → ℕ
word_of t =
    low_bits t.year 7 * 2 ^ 25
    + low_bits t.month 4 * 2 ^ 21
    + low_bits t.day 5 * 2 ^ 16
    + low_bits t.hour 5 * 2 ^ 11
    + low_bits t.minute 6 * 2 ^ 5
    + low_bits t.second 5

-- `get_fattime` at the time `time64`.
pub get_fattime : ℕ → ℕ
get_fattime time64 =
    let time32 = time64 % 2 ^ 32 in
    let date = civil_from_days (to_s32 (time64 / 86400)) in
    word_of (record {
      year = year_field date.year;
      month = date.month;
      day = date.day;
      hour = time32 / 60 / 60 % 24;
      minute = time32 / 60 % 60;
      second = time32 % 60;
    })

-- How FatFs reads a time stamp: the layout that ff.h documents for `fdate` and `ftime`.
pub stamp_of : ℕ → FatStamp
stamp_of w = record {
  year = 1980 + shr w 25;
  month = low_bits (shr w 21) 4;
  day = low_bits (shr w 16) 5;
  hour = low_bits (shr w 11) 5;
  minute = low_bits (shr w 5) 6;
  second = 2 * low_bits w 5;
}
