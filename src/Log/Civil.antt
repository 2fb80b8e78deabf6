-- ===== src/Log/Civil.antt =====
-- src/event_log.h, `civilFromEpoch`: the calendar date and the time of day of an epoch.
use teg.Prelude.{
  ℕ, ◌+◌, ◌-◌, ◌*◌, ◌/◌, ◌%◌, ◌<◌, ◌≤◌, ◌≡◌, leb, if◌then◌else◌, ◌==◌, ◌&&◌, ◌||◌, not, arith,
}
use teg.Prelude.Words.{IsU32}
use teg.Log.{CivilTime, civil_from_days, civil_from_epoch}

-- The Gregorian calendar, counted from 1 March of year 0: a year that starts in March has 365 days
-- and a leap day at its end, in every fourth year but for three centuries in four.
abbrev march_year : ℕ → ℕ → ℕ
march_year y m = if leb m 2 then y - 1 else y

abbrev march_month : ℕ → ℕ
march_month m = if leb m 2 then m + 9 else m - 3

abbrev days_before_year : ℕ → ℕ
days_before_year y = 365 * y + y / 4 - y / 100 + y / 400

-- March to July, August to December: months of 31, 30, 31, 30, 31 days.
abbrev days_before_month : ℕ → ℕ
days_before_month mp = mp / 5 * 153 + (mp % 5 * 61 + 1) / 2

-- The number of a date, 1970-01-01 being day 0.
pub days_from_civil : ℕ → ℕ → ℕ → ℕ
days_from_civil y m d =
    days_before_year (march_year y m) + days_before_month (march_month m) + d - 1 - 719468

abbrev yoe_of : ℕ → ℕ
yoe_of doe = (doe - doe / 1460 + doe / 36524 - doe / 146096) / 365

abbrev doy_of : ℕ → ℕ
doy_of doe = doe - (365 * yoe_of doe + yoe_of doe / 4 - yoe_of doe / 100)

year_of_era :
    (doe : ℕ)
    → doe < 146097
    → (yoe_of doe < 400)
      × (365 * yoe_of doe + yoe_of doe / 4 - yoe_of doe / 100 ≤ doe)
      × (doy_of doe ≤ 365)
year_of_era doe h = omega arith

month_day :
    (doy : ℕ)
    → doy ≤ 365
    → ((5 * doy + 2) / 153 < 12)
      × ((153 * ((5 * doy + 2) / 153) + 2) / 5 ≤ doy)
      × (doy - (153 * ((5 * doy + 2) / 153) + 2) / 5 < 31)
month_day doy h = omega arith

month_start : (mp : ℕ) → mp < 12 → days_before_month mp ≡ (153 * mp + 2) / 5
month_start mp h = omega arith

-- The days of a month of the Gregorian calendar.
abbrev days_in_month : ℕ → ℕ → ℕ
days_in_month year month =
    if month == 2
    then (if year % 4 == 0 && (not (year % 100 == 0) || year % 400 == 0) then 29 else 28)
    else if month == 4 || month == 6 || month == 9 || month == 11
    then 30
    else 31

module _ (days : ℕ) (h : days < 49711) where
  abbrev z : ℕ
  z = days + 719468

  abbrev doe : ℕ
  doe = z - z / 146097 * 146097

  abbrev mp : ℕ
  mp = (5 * doy_of doe + 2) / 153

  doe_lt : doe < 146097
  doe_lt = omega arith

  -- The fields of a date of the 32-bit range.
  pub civil_in_range :
      let (y, m, d) = civil_from_days days in
      (1970 ≤ y) × (y ≤ 2106) × (1 ≤ m) × (m ≤ 12) × (1 ≤ d) × (d ≤ 31)
  unfolding civil_from_days
  civil_in_range = ground (arith, year_of_era doe doe_lt, month_day (doy_of doe))

  civil_in_month : let (y, m, d) = civil_from_days days in d ≤ days_in_month y m
  unfolding civil_from_days
  civil_in_month = ground (arith, year_of_era doe doe_lt, month_day (doy_of doe))

  pub days-civil : let (y, m, d) = civil_from_days days in days_from_civil y m d ≡ days
  unfolding civil_from_days days_from_civil
  days-civil = ground (arith, year_of_era doe doe_lt, month_day (doy_of doe), month_start mp)

-- The fields of a time stamp: a calendar date and a time of day in range, which together give back
-- the 32-bit epoch they were computed from.
pub record IsTimeOf (epoch : ℕ) (t : CivilTime) : Type 0 where
  pub years : (1970 ≤ t.year) × (t.year ≤ 2106)
  pub months : (1 ≤ t.month) × (t.month ≤ 12)
  pub days_of_month : (1 ≤ t.day) × (t.day ≤ days_in_month t.year t.month)
  pub hours : t.hour < 24
  pub minutes : t.minute < 60
  pub seconds : t.second < 60
  pub exact :
      days_from_civil t.year t.month t.day * 86400 + t.hour * 3600 + t.minute * 60 + t.second
      ≡ epoch

-- Every 32-bit epoch is converted to its date and time: a year from 1970 to 2106, a month, a day that
-- the month has in that year of the Gregorian calendar, and a time of day, which give the epoch back.
pub civil_from_epoch-IsTimeOf : (epoch : ℕ) → IsU32 epoch → IsTimeOf epoch (civil_from_epoch epoch)
unfolding civil_from_epoch
civil_from_epoch-IsTimeOf epoch h =
    let range = civil_in_range (epoch / 86400) (omega arith) in
    record {
      years = (range.0, range.1);
      months = (range.2, range.3);
      days_of_month = (range.4, civil_in_month (epoch / 86400) (omega arith));
      hours = omega arith;
      minutes = omega arith;
      seconds = omega arith;
      exact = omega (arith, days-civil (epoch / 86400) (omega arith));
    }
