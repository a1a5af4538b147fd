-- ===== src/FatTime/Calendar.antt =====
-- `civil_from_days` against the Gregorian calendar, counted day by day from 1970-01-01.
use ctgpr_msc.Base.{
  ℕ, zero, suc, ◌+◌, ◌-◌, ◌≤◌, ◌<◌, ◌≡◌, refl, sym, ◌∙◌, ap, inl, inr, arith, Bool-cases, ltb, ◌==◌,
  if◌then◌else◌,
}
use ctgpr_msc.Base.Int.{pos}
use ctgpr_msc.FatTime.{civil_from_days}
use ctgpr_msc.FatTime.Days.{
  IsPlace, Stands, civil_from_days-place, day_number, day_of, is_leap, is_leap-era, month_days,
  month_start, number_of, to_date, tomorrow,
}

-- The length of a month from March.
month_length : ℕ → ℕ → ℕ
month_length y m =
    if m == 11 then (if is_leap (y + 1) then 29 else 28) else month_start (m + 1) - month_start m

month_days-day_of :
    (e y m d : ℕ)
    → m ≤ 11
    → month_days (day_of e y m d).year (day_of e y m d).month ≡ month_length y m
unfolding day_of month_days month_length
month_days-day_of e y m d h = ground (arith, is_leap-era y e)

-- The day after a place: in the month, in the next month, in the next year, in the next era.
next_day-IsPlace :
    (e y m d : ℕ) → IsPlace e y m d → d + 1 < month_length y m → IsPlace e y m (d + 1)
unfolding month_length is_leap
next_day-IsPlace e y m d p h = ground arith

tomorrow-within :
    (e y m d : ℕ)
    → m ≤ 11
    → d + 1 < month_length y m
    → tomorrow (day_of e y m d) ≡ day_of e y m (d + 1)
unfolding tomorrow day_of
tomorrow-within e y m d hm h = ground (arith, month_days-day_of e y m d hm)

tomorrow_month :
    (e y m d : ℕ)
    → m < 11
    → month_length y m ≤ d + 1
    → tomorrow (day_of e y m d) ≡ day_of e y (suc m) 0
unfolding tomorrow day_of
tomorrow_month e y m d hm h = ground (arith, month_days-day_of e y m d (omega arith))

tomorrow_year :
    (e y d : ℕ) → month_length y 11 ≤ d + 1 → tomorrow (day_of e y 11 d) ≡ day_of e (suc y) 0 0
unfolding tomorrow day_of
tomorrow_year e y d h = ground (arith, month_days-day_of e y 11 d (omega arith))

day_of-era : (e : ℕ) → day_of e 400 0 0 ≡ day_of (suc e) 0 0 0
unfolding day_of
day_of-era e = ground arith

-- At the end of a month.
month_next :
    (e y m d n : ℕ)
    → IsPlace e y m d
    → number_of e y m d ≡ n
    → month_length y m ≤ d + 1
    → Stands (suc n) (tomorrow (day_of e y m d))
unfolding month_length is_leap
month_next e y m d n p h full = elim (Bool-cases (ltb m 11)) [
  | inl more ↦ record {
    e = e;
    y = y;
    m = suc m;
    d = 0;
    place = ground arith;
    number = ground arith;
    shows = tomorrow_month e y m d (ground arith) full;
  }
  | inr last ↦
      let twelfth : m ≡ 11 = ground arith in
      let eq : tomorrow (day_of e y m d) ≡ day_of e (suc y) 0 0 =
        rw twelfth (tomorrow_year e y d (rw twelfth at full)) in
      elim (Bool-cases (ltb y 399)) [
        | inl before ↦ record {
          e = e;
          y = suc y;
          m = 0;
          d = 0;
          place = ground arith;
          number = ground arith;
          shows = eq;
        }
        | inr after ↦ record {
          e = suc e;
          y = 0;
          m = 0;
          d = 0;
          place = ground arith;
          number = ground arith;
          shows = eq ∙ ap (λ k. day_of e (suc k) 0 0) (ground arith) ∙ day_of-era e;
        }
      ]
]

place_next :
    (e y m d n : ℕ)
    → IsPlace e y m d
    → number_of e y m d ≡ n
    → Stands (suc n) (tomorrow (day_of e y m d))
place_next e y m d n p h = elim (Bool-cases (ltb (d + 1) (month_length y m))) [
  | inl within ↦ record {
    e = e;
    y = y;
    m = m;
    d = d + 1;
    place = next_day-IsPlace e y m d p (ground arith);
    number = omega arith;
    shows = tomorrow-within e y m d p.month_in (ground arith);
  }
  | inr full ↦ month_next e y m d n p h (ground arith)
]

day_number-Stands : (n : ℕ) → Stands (n + 719468) (day_number n)
unfolding day_number
day_number-Stands zero = record {
  e = 4;
  y = 369;
  m = 10;
  d = 0;
  place = omega arith;
  number = refl;
  shows = unfold day_of in refl;
}
day_number-Stands (suc n) =
    let s = day_number-Stands n in
    let number : suc n + 719468 ≡ suc (n + 719468) = omega arith in
    rw (number, s.shows) (place_next s.e s.y s.m s.d _ s.place s.number)

-- For every day count from 0 on, the routine gives the date that counting the days of the Gregorian
-- calendar from 1970-01-01 gives.
pub civil_from_days-day_number : (n : ℕ) → civil_from_days (pos n) ≡ to_date (day_number n)
civil_from_days-day_number n =
    let s = day_number-Stands n in
    civil_from_days-place s.e s.y s.m s.d n s.place s.number ∙ ap to_date (sym s.shows)

-- The dates that a stamp has room for.
day_of_range :
    (e y m d n : ℕ)
    → IsPlace e y m d
    → number_of e y m d ≡ n + 719468
    → 3652 ≤ n
    → n ≤ 49710
    → (1980 ≤ (day_of e y m d).year)
      × ((day_of e y m d).year ≤ 2107)
      × (1 ≤ (day_of e y m d).month)
      × ((day_of e y m d).month ≤ 12)
      × ((day_of e y m d).day ≤ 31)
unfolding day_of
day_of_range e y m d n p h lo hi = ground arith

pub day_number_range :
    (n : ℕ)
    → 3652 ≤ n
    → n ≤ 49710
    → (1980 ≤ (day_number n).year)
      × ((day_number n).year ≤ 2107)
      × (1 ≤ (day_number n).month)
      × ((day_number n).month ≤ 12)
      × ((day_number n).day ≤ 31)
day_number_range n lo hi =
    let s = day_number-Stands n in
    rw s.shows (day_of_range s.e s.y s.m s.d n s.place s.number lo hi)
