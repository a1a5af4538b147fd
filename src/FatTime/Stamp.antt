-- ===== src/FatTime/Stamp.antt =====
-- What FatFs reads from the word that `get_fattime` returns.
use ctgpr_msc.Base.{ℕ, ◌+◌, ◌-◌, ◌*◌, ◌/◌, ◌%◌, ◌^◌, ◌≤◌, ◌<◌, ◌≡◌, ◌≢◌, refl, arith}
use ctgpr_msc.Base.Int.{pos}
use ctgpr_msc.FatTime.{to_s32, year_field, word_of, get_fattime, stamp_of}
use ctgpr_msc.FatTime.Calendar.{civil_from_days-day_number, day_number_range}
use ctgpr_msc.FatTime.Days.{day_number}

-- A stamp whose members fit their fields is read back, the year from 1980 and the seconds doubled.
word_of_fields :
    (y m d h n s : ℕ)
    → y < 128
    → m < 16
    → d < 32
    → h < 32
    → n < 64
    → stamp_of (word_of (record { year = y; month = m; day = d; hour = h; minute = n; second = s }))
      ≡ record { year = 1980 + y; month = m; day = d; hour = h; minute = n; second = 2 * (s % 32) }
unfolding stamp_of
word_of_fields y m d h n s hy hm hd hh hn = ground arith

-- `get_fattime` with the date that the calendar gives.
get_fattime_date :
    (t : ℕ)
    → t < 2 ^ 32
    → get_fattime t
      ≡ word_of (record {
        year = year_field (pos (day_number (t / 86400)).year);
        month = (day_number (t / 86400)).month;
        day = (day_number (t / 86400)).day;
        hour = t / 60 / 60 % 24;
        minute = t / 60 % 60;
        second = t % 60;
      })
unfolding get_fattime
get_fattime_date t h =
    let small : to_s32 (t / 86400) ≡ pos (t / 86400) = ground arith in
    let word : t % 2 ^ 32 ≡ t = omega arith in
    rw (small, word, civil_from_days-day_number (t / 86400))

-- Seconds since 1970 at which both the clock fits 32 bits and the year fits its field.
abbrev pub IsStampTime : ℕ → Type 0
IsStampTime t = (3652 * 86400 ≤ t) × (t < 2 ^ 32)

stamp_of-get_fattime :
    (t : ℕ)
    → IsStampTime t
    → stamp_of (get_fattime t) ≡ record {
      year = (day_number (t / 86400)).year;
      month = (day_number (t / 86400)).month;
      day = (day_number (t / 86400)).day;
      hour = t / 60 / 60 % 24;
      minute = t / 60 % 60;
      second = 2 * (t % 60 % 32);
    }
stamp_of-get_fattime t h =
    let range = day_number_range (t / 86400) (omega arith) (omega arith) in
    let day = day_number (t / 86400) in
    let year : year_field (pos day.year) ≡ day.year - 1980 = omega arith in
    let back : 1980 + (day.year - 1980) ≡ day.year = omega arith in
    rw (get_fattime_date t h.1, year)
      (rw
        (word_of_fields (day.year - 1980) day.month day.day (t / 60 / 60 % 24) (t / 60 % 60)
          (t % 60) (omega arith) (omega arith) (omega arith) (omega arith) (omega arith))
        (rw back))

-- From 1980 on, and while the clock fits 32 bits, the year, month and day that FatFs reads from the
-- stamp are those of the calendar, and its hour and minute are the time of the day.
pub get_fattime_lem :
    (t : ℕ)
    → IsStampTime t
    → let s = stamp_of (get_fattime t) in
      let day = day_number (t / 86400) in
      (s.year ≡ day.year)
      × (s.month ≡ day.month)
      × (s.day ≡ day.day)
      × (s.hour < 24)
      × (s.minute < 60)
      × (s.hour * 3600 + s.minute * 60 + t % 60 ≡ t % 86400)
get_fattime_lem t h =
    rw (stamp_of-get_fattime t h) (refl, refl, refl, omega arith, omega arith, omega arith)

-- From 1980 on, and while the clock fits 32 bits, the seconds that FatFs reads from the stamp are
-- wrong at every time whose seconds are not 0: the field counts in steps of two seconds, and the code stores the seconds themselves.
pub get_fattime_seconds :
    (t : ℕ) → IsStampTime t → t % 60 ≢ 0 → (stamp_of (get_fattime t)).second ≢ t % 60
get_fattime_seconds t h nonzero = rw (stamp_of-get_fattime t h) (omega arith)
