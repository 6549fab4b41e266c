-- ===== src/Timeutil.antt =====
-- src/timeutil.rs: civil dates. An `i64` day count is an integer; the code's sums stay far inside
-- the range of an `i64`, since its callers divide milliseconds by a day first.
pub mod Dates
mod Tests
use local_api_relay.Common.{ℕ, ◌+◌, ◌-◌, ◌*◌, ◌/◌, ◌%◌, ltb, leb, if◌then◌else◌}
use local_api_relay.Common.Int.{ℤ, pos, negsuc, ◌+ℤ◌, ◌-ℤ◌, ◌*ℤ◌}

-- `a.div_euclid(b)` and `a.rem_euclid(b)` for a positive `b`.
unfoldable pub div_euclid : ℤ → ℕ → ℤ
div_euclid (pos n) b = pos (n / b)
div_euclid (negsuc n) b = negsuc (n / b)

unfoldable pub rem_euclid : ℤ → ℕ → ℕ
rem_euclid (pos n) b = n % b
rem_euclid (negsuc n) b = b - 1 - n % b

pub record Date : Type 0 where
  pub year : ℤ
  pub month : ℕ
  pub day : ℕ

unfoldable pub year_of_era : ℕ → ℕ
year_of_era day_of_era =
    (day_of_era - day_of_era / 1460 + day_of_era / 36_524 - day_of_era / 146_096) / 365

unfoldable pub civil_from_days : ℤ → Date
unfolding div_euclid rem_euclid year_of_era ◌+ℤ◌ ◌*ℤ◌
civil_from_days days_since_epoch =
    let z = days_since_epoch +ℤ pos 719_468 in
    let era = div_euclid z 146_097 in
    let day_of_era = rem_euclid z 146_097 in
    let yoe = year_of_era day_of_era in
    let year = pos yoe +ℤ era *ℤ pos 400 in
    let day_of_year = day_of_era - (365 * yoe + yoe / 4 - yoe / 100) in
    let month_prime = (5 * day_of_year + 2) / 153 in
    let month = if ltb month_prime 10 then month_prime + 3 else month_prime - 9 in
    record {
      year = if leb month 2 then year +ℤ pos 1 else year;
      month = month;
      day = day_of_year - (153 * month_prime + 2) / 5 + 1;
    }

unfoldable pub days_from_civil : Date → ℤ
unfolding div_euclid ◌+ℤ◌ ◌-ℤ◌ ◌*ℤ◌
days_from_civil date =
    let year = if leb date.month 2 then date.year -ℤ pos 1 else date.year in
    let era = div_euclid year 400 in
    let yoe = rem_euclid year 400 in
    let month_prime = if ltb 2 date.month then date.month - 3 else date.month + 9 in
    let day_of_year = pos ((153 * month_prime + 2) / 5 + date.day) -ℤ pos 1 in
    let day_of_era = pos (yoe * 365 + yoe / 4 - yoe / 100) +ℤ day_of_year in
    era *ℤ pos 146_097 +ℤ day_of_era -ℤ pos 719_468

-- `date_key`, without its formatting as YYYY-MM-DD.
unfoldable pub date_key : ℤ → Date
unfolding civil_from_days div_euclid
date_key epoch_ms = civil_from_days (div_euclid epoch_ms 86_400_000)
