-- ===== src/Fs/FatTime/Calendar.antt =====
-- The time stamps of FAT entries against the calendar.
use systemcommander.Common.{
  ℕ, zero, suc, ◌+◌, ◌-◌, ◌*◌, ◌/◌, ◌%◌, ◌^◌, ◌≤◌, ◌<◌, ◌≡◌, refl, Bool, true, false, ◌&&◌, ◌||◌,
  arith, ◌==◌, if◌then◌else◌, ltb, sub64, mul64, u64_mod,
}
use systemcommander.Common.Bits.{all_below, all_below_sound}
use systemcommander.Fs.FatTime.{
  fat_time_hour, fat_time_min, fat_time_sec, fat_date_year, fat_date_month, fat_date_day, is_leap,
  month_days, sum_months, fat_time_to_timestamp,
}

-- The days of a year, and those from 1 January 1970 to 1 January of the year 1970 + n.
abbrev pub days_in_year : ℕ → ℕ
days_in_year year = if is_leap year then 366 else 365

pub days_of_years : ℕ → ℕ
days_of_years zero = 0
days_of_years (suc n) = days_of_years n + days_in_year (1970 + n)

abbrev pub days_in_month : Bool → ℕ → ℕ
days_in_month leap month =
    if month == 2
    then (if leap then 29 else 28)
    else if (month == 4) || (month == 6) || (month == 9) || (month == 11)
    then 30
    else 31

-- The days of the first n months of a year.
pub days_of_months : Bool → ℕ → ℕ
days_of_months leap zero = 0
days_of_months leap (suc n) = days_of_months leap n + days_in_month leap (suc n)

-- POSIX time by the proleptic Gregorian calendar.
pub posix_time : (year month day hour min sec : ℕ) → ℕ
posix_time year month day hour min sec =
    (days_of_years (year - 1970) + days_of_months (is_leap year) (month - 1) + (day - 1)) * 86400
    + hour * 3600
    + min * 60
    + sec

abbrev code_days : ℕ → ℕ
code_days year =
    mul64 365 (sub64 year 1970)
    + sub64 (sub64 (year / 4) (year / 100) + year / 400) (1969 / 4 - 1969 / 100 + 1969 / 400)

abbrev year_row : ℕ → Bool
year_row y =
    (code_days (1980 + y) == days_of_years (10 + y) + (if is_leap (1980 + y) then 1 else 0))
    && ltb (code_days (1980 + y)) 60000

years_table : all_below 128 year_row ≡ true
unfolding all_below days_of_years
years_table = refl

abbrev month_row : (ℕ → ℕ) → Bool → ℕ → Bool
month_row beyond leap m =
    (sum_months beyond (month_days leap) (suc m) == days_of_months leap m)
    && ltb (days_of_months leap m) 367

months_table : (beyond : ℕ → ℕ) (leap : Bool) → all_below 12 (month_row beyond leap) ≡ true
unfolding all_below days_of_months sum_months
months_table beyond true = refl
months_table beyond false = refl

year_lem :
    (y : ℕ)
    → y < 128
    → (code_days (y + 1980)
        ≡ days_of_years (y + 1980 - 1970) + (if is_leap (y + 1980) then 1 else 0))
      × (code_days (y + 1980) < 60000)
year_lem y h =
    let e : y + 1980 ≡ 1980 + y = omega arith in
    let e' : 1980 + y - 1970 ≡ 10 + y = omega arith in
    rw (e, e') (row (all_below_sound 128 year_row y years_table h))
  where
    row :
        year_row y ≡ true
        → (code_days (1980 + y) ≡ days_of_years (10 + y) + (if is_leap (1980 + y) then 1 else 0))
          × (code_days (1980 + y) < 60000)
    row e = both _ _ _ e
      where
        both : (a b c : ℕ) → ((a == b) && ltb a c) ≡ true → (a ≡ b) × (a < c)
        both a b c h = ground arith

month_lem :
    (beyond : ℕ → ℕ) (leap : Bool) (m : ℕ)
    → m < 12
    → (sum_months beyond (month_days leap) (suc m) ≡ days_of_months leap m)
      × (days_of_months leap m < 367)
month_lem beyond leap m h =
    both _ _ _ (all_below_sound 12 (month_row beyond leap) m (months_table beyond leap) h)
  where
    both : (a b c : ℕ) → ((a == b) && ltb b c) ≡ true → (a ≡ b) × (b < c)
    both a b c e = ground arith

month_at :
    (beyond : ℕ → ℕ) (leap : Bool) (m : ℕ)
    → 1 ≤ m
    → m ≤ 12
    → (sum_months beyond (month_days leap) m ≡ days_of_months leap (m - 1))
      × (days_of_months leap (m - 1) < 367)
month_at beyond leap zero lo hi = absurd (omega arith)
month_at beyond leap (suc m) lo hi =
    let e : suc m - 1 ≡ m = omega arith in rw e (month_lem beyond leap m (omega arith))

-- The time stamp of a date with a month from 1 to 12 and a day of at least 1: in a common year it is
-- the POSIX time of that date and time, in a leap year it is that of the next day.
pub fat_time_to_timestamp-posix :
    (beyond : ℕ → ℕ) (date time : ℕ)
    → 1 ≤ fat_date_month date
    → fat_date_month date ≤ 12
    → 1 ≤ fat_date_day date
    → fat_time_to_timestamp beyond date time
      ≡ posix_time
          (fat_date_year date)
          (fat_date_month date)
          (fat_date_day date)
          (fat_time_hour time)
          (fat_time_min time)
          (fat_time_sec time)
        + (if is_leap (fat_date_year date) then 86400 else 0)
unfolding fat_time_to_timestamp posix_time
fat_time_to_timestamp-posix beyond date time lo hi day =
    total (is_leap (fat_date_year date)) _ _ _ _ (year_lem (date / 2 ^ 9 % 2 ^ 7) (omega arith))
      (month_at beyond (is_leap (fat_date_year date)) (fat_date_month date) lo hi)
  where
    total :
        (leap : Bool) (years years' months months' : ℕ)
        → (years ≡ years' + (if leap then 1 else 0)) × (years < 60000)
        → (months ≡ months') × (months' < 367)
        → ((years + months + (fat_date_day date + (u64_mod - 1 % u64_mod)) % u64_mod)
                % u64_mod
                * 86400
              + fat_time_hour time * 3600
              + fat_time_min time * 60
              + fat_time_sec time)
            % u64_mod
          ≡ (years' + months' + (fat_date_day date - 1)) * 86400
            + fat_time_hour time * 3600
            + fat_time_min time * 60
            + fat_time_sec time
            + (if leap then 86400 else 0)
    total true years years' months months' y m = omega arith
    total false years years' months months' y m = omega arith
