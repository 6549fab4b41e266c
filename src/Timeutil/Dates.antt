-- ===== src/Timeutil/Dates.antt =====
-- src/timeutil.rs: the two conversions between days and civil dates.
use local_api_relay.Common.{
  ℕ, ◌+◌, ◌-◌, ◌*◌, ◌/◌, ◌<◌, ◌≤◌, arith, ◌≡◌, refl, ap, ◌∙◌, ltb, leb, if◌then◌else◌, Bool-cases,
  inl, inr,
}
use local_api_relay.Common.Int.{ℤ, pos, negsuc, ◌+ℤ◌, ◌-ℤ◌, ◌*ℤ◌, int_laws}
use local_api_relay.Timeutil.{
  Date, div_euclid, rem_euclid, year_of_era, civil_from_days, days_from_civil,
}

month_lem : (d : ℕ) → d < 366 → ((153 * ((5 * d + 2) / 153) + 2) / 5 ≤ d) × ((5 * d + 2) / 153 < 12)
month_lem d h = (omega arith, omega arith)

-- The days of an era before its year `y`, which starts in March.
abbrev year_start : ℕ → ℕ
year_start y = 365 * y + y / 4 - y / 100

year_lem :
    (e : ℕ)
    → e < 146_097
    → (year_start (year_of_era e) ≤ e)
      × (e - year_start (year_of_era e) < 366)
      × (year_of_era e < 400)
unfolding year_of_era
year_lem e h = (omega arith, omega arith, omega arith)

-- The year of an era's year, and back.
abbrev year_of : ℤ → ℕ → ℤ
year_of era y = pos y +ℤ era *ℤ pos 400

era-year :
    (era : ℤ) (y : ℕ)
    → y < 400
    → (div_euclid (year_of era y) 400 ≡ era) × (rem_euclid (year_of era y) 400 ≡ y)
unfolding div_euclid rem_euclid ◌+ℤ◌ ◌*ℤ◌
era-year (pos n) y h = (ground arith, ground arith)
era-year (negsuc n) y h = (ground arith, ground arith)

euclid : (z : ℤ) → div_euclid z 146_097 *ℤ pos 146_097 +ℤ pos (rem_euclid z 146_097) ≡ z
unfolding div_euclid rem_euclid ◌+ℤ◌ ◌*ℤ◌
euclid (pos n) = ground arith
euclid (negsuc n) = ground arith

rem-lt : (z : ℤ) → rem_euclid z 146_097 < 146_097
unfolding rem_euclid
rem-lt (pos n) = omega arith
rem-lt (negsuc n) = omega arith

back : (z : ℤ) (n : ℕ) → (z +ℤ pos n) -ℤ pos n ≡ z
back z n = grind int_laws

there : (z : ℤ) (n : ℕ) → (z -ℤ pos n) +ℤ pos n ≡ z
there z n = grind int_laws

-- The date of a day of a year that starts in March.
abbrev date_of : ℤ → ℕ → Date
date_of year doy =
    let month_prime = (5 * doy + 2) / 153 in
    let month = if ltb month_prime 10 then month_prime + 3 else month_prime - 9 in
    record {
      year = if leb month 2 then year +ℤ pos 1 else year;
      month = month;
      day = doy - (153 * month_prime + 2) / 5 + 1;
    }

civil_lem :
    (z : ℤ)
    → let w = z +ℤ pos 719_468 in
      let e = rem_euclid w 146_097 in
      civil_from_days z
      ≡ date_of (year_of (div_euclid w 146_097) (year_of_era e)) (e - year_start (year_of_era e))
unfolding civil_from_days
civil_lem z = refl

-- The day count of a March year's day.
abbrev assemble : ℤ → ℕ → ℤ → ℤ
assemble era y doy = era *ℤ pos 146_097 +ℤ (pos (y * 365 + y / 4 - y / 100) +ℤ doy) -ℤ pos 719_468

abbrev march_days : ℤ → ℤ → ℤ
march_days year doy = assemble (div_euclid year 400) (rem_euclid year 400) doy

abbrev march_year : Date → ℤ
march_year d = if leb d.month 2 then d.year -ℤ pos 1 else d.year

abbrev march_day : Date → ℤ
march_day d =
    pos ((153 * (if ltb 2 d.month then d.month - 3 else d.month + 9) + 2) / 5 + d.day) -ℤ pos 1

days_lem : (d : Date) → days_from_civil d ≡ march_days (march_year d) (march_day d)
unfolding days_from_civil
days_lem d = refl

march_year-date_of : (year : ℤ) (doy : ℕ) → doy < 366 → march_year (date_of year doy) ≡ year
march_year-date_of year doy h = elim (Bool-cases (ltb ((5 * doy + 2) / 153) 10)) [
  | inl e ↦ rw e (ground arith)
  | inr e ↦ rw e (ground (arith, back year 1, month_lem doy))
]

march_day-date_of : (year : ℤ) (doy : ℕ) → doy < 366 → march_day (date_of year doy) ≡ pos doy
unfolding ◌-ℤ◌
march_day-date_of year doy h = elim (Bool-cases (ltb ((5 * doy + 2) / 153) 10)) [
  | inl e ↦ rw e (ground (arith, month_lem doy))
  | inr e ↦ rw e (ground (arith, month_lem doy))
]

march_days-year_of :
    (era : ℤ) (y : ℕ) (doy : ℤ) → y < 400 → march_days (year_of era y) doy ≡ assemble era y doy
march_days-year_of era y doy h =
    let (d, r) = era-year era y h in
    ap (λ (n : ℤ). assemble n (rem_euclid (year_of era y) 400) doy) d
    ∙ ap (λ (n : ℕ). assemble era n doy) r

pos_sum : (a b : ℕ) → pos a +ℤ pos b ≡ pos (a + b)
unfolding ◌+ℤ◌
pos_sum a b = ground arith

-- The days of an era, from the year and the day that they are split into.
day_of_era_lem :
    (e : ℕ)
    → e < 146_097
    → let y = year_of_era e in pos (y * 365 + y / 4 - y / 100) +ℤ pos (e - year_start y) ≡ pos e
day_of_era_lem e h =
    let y = year_of_era e in
    pos_sum (y * 365 + y / 4 - y / 100) (e - year_start y)
    ∙ ap pos (omega (arith, (year_lem e h).0))

date_of-days :
    (year : ℤ) (doy : ℕ)
    → doy < 366
    → days_from_civil (date_of year doy) ≡ march_days year (pos doy)
date_of-days year doy h =
    days_lem (date_of year doy)
    ∙ ap (λ (n : ℤ). march_days n (march_day (date_of year doy))) (march_year-date_of year doy h)
    ∙ ap (march_days year) (march_day-date_of year doy h)

-- From any day count, before the epoch too, to its civil date and back is the same day count.
pub days_from_civil-civil_from_days : (z : ℤ) → days_from_civil (civil_from_days z) ≡ z
days_from_civil-civil_from_days z =
    let w = z +ℤ pos 719_468 in
    let era = div_euclid w 146_097 in
    let e = rem_euclid w 146_097 in
    let y = year_of_era e in
    let (before, within, in_era) = year_lem e (rem-lt w) in
    ap days_from_civil (civil_lem z)
    ∙ date_of-days (year_of era y) (e - year_start y) within
    ∙ march_days-year_of era y (pos (e - year_start y)) in_era
    ∙ ap (λ (n : ℤ). era *ℤ pos 146_097 +ℤ n -ℤ pos 719_468) (day_of_era_lem e (rem-lt w))
    ∙ ap (λ (n : ℤ). n -ℤ pos 719_468) (euclid w)
    ∙ back z 719_468
