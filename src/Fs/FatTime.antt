-- ===== src/Fs/FatTime.antt =====
-- fs/fat.c, `fat_time_to_timestamp`, and the masks of include/syscom/fs/fat.h.
pub mod Calendar
use systemcommander.Common.{
  ℕ, zero, suc, ◌+◌, ◌-◌, ◌*◌, ◌/◌, ◌%◌, ◌^◌, Bool, true, false, not, ◌&&◌, ◌||◌, List, [], ◌∷◌,
  get_or, set, ◌==◌, if◌then◌else◌, add64, sub64, mul64, u64_mod,
}

-- The fields are runs of bits: a mask and a shift are a quotient and a remainder.
abbrev pub fat_time_hour : ℕ → ℕ
fat_time_hour time = time / 2 ^ 11 % 2 ^ 5

abbrev pub fat_time_min : ℕ → ℕ
fat_time_min time = time / 2 ^ 5 % 2 ^ 6

abbrev pub fat_time_sec : ℕ → ℕ
fat_time_sec time = time % 2 ^ 5 * 2

abbrev pub fat_date_year : ℕ → ℕ
fat_date_year date = date / 2 ^ 9 % 2 ^ 7 + 1980

abbrev pub fat_date_month : ℕ → ℕ
fat_date_month date = date / 2 ^ 5 % 2 ^ 4

abbrev pub fat_date_day : ℕ → ℕ
fat_date_day date = date % 2 ^ 5

abbrev pub is_leap : ℕ → Bool
is_leap year = ((year % 4 == 0) && not (year % 100 == 0)) || (year % 400 == 0)

-- `month_days`, with the 29th of February in a leap year.
abbrev pub month_days : Bool → List ℕ
month_days leap =
    let days : List ℕ = 0 ∷ 31 ∷ 28 ∷ 31 ∷ 30 ∷ 31 ∷ 30 ∷ 31 ∷ 31 ∷ 30 ∷ 31 ∷ 30 ∷ 31 ∷ [] in
    if leap then set days 2 29 else days

-- for (i = 1; i < month; i++) days_months += month_days[i]. Months 14 and 15, which the four bits can
-- hold, read behind the array: `beyond` is what stands there.
sum_months : (ℕ → ℕ) → List ℕ → ℕ → ℕ
sum_months beyond days zero = 0
sum_months beyond days (suc zero) = 0
sum_months beyond days (suc (suc i)) =
    sum_months beyond days (suc i) + get_or days (suc i) (beyond (suc i))

pub fat_time_to_timestamp : (ℕ → ℕ) → ℕ → ℕ → ℕ
unfolding sum_months
fat_time_to_timestamp beyond date time =
    let year = fat_date_year date in
    let month = fat_date_month date in
    let day = fat_date_day date in
    let leaps = sub64 (year / 4) (year / 100) + year / 400 in
    let leaps0 : ℕ = 1969 / 4 - 1969 / 100 + 1969 / 400 in
    let leap_days = sub64 leaps leaps0 in
    let days_years = mul64 365 (sub64 year 1970) + leap_days in
    let days_months = sum_months beyond (month_days (is_leap year)) month in
    let total_days = add64 (days_years + days_months) (sub64 day 1) in
    (total_days * 86400 + fat_time_hour time * 3600 + fat_time_min time * 60 + fat_time_sec time)
    % u64_mod
