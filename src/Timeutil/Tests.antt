-- ===== src/Timeutil/Tests.antt =====
-- Runs of the date conversions at concrete values.
use local_api_relay.Common.{◌≡◌, refl}
use local_api_relay.Common.Int.{pos, negsuc}
use local_api_relay.Timeutil.{civil_from_days, days_from_civil, rem_euclid}
use local_api_relay.Timeutil.Dates.{days_from_civil-civil_from_days}

leap_day : civil_from_days (pos 19_782) ≡ record { year = pos 2024; month = 2; day = 29 }
unfolding civil_from_days
leap_day = refl

before_epoch : civil_from_days (negsuc 0) ≡ record { year = pos 1969; month = 12; day = 31 }
unfolding civil_from_days
before_epoch = refl

back : days_from_civil (record { year = pos 1969; month = 12; day = 31 }) ≡ negsuc 0
unfolding days_from_civil rem_euclid
back = refl

days_from_civil-civil_from_days_example :
    days_from_civil (civil_from_days (negsuc 719_468)) ≡ negsuc 719_468
days_from_civil-civil_from_days_example = days_from_civil-civil_from_days (negsuc 719_468)
