-- ===== src/Base/Dates.antt =====
-- Dates as Python's ordinals: day 1 is the first of January of the year 1.
use Prim.Native.Nat.{ℕ, zero, suc, ◌+◌, ◌-◌, ◌*◌, ◌/◌, ◌%◌}
use mathlib.Core.Bool.{Bool, not, ◌&&◌, ◌||◌}
use mathlib.Core.Option.{Option, none, some}
use pos_pay.Base.Tests.{leb, ◌==◌, if◌then◌else◌}

abbrev pub is_leap : ℕ → Bool
is_leap year = year % 4 == 0 && (not (year % 100 == 0) || year % 400 == 0)

abbrev pub days_in_month : ℕ → ℕ → ℕ
days_in_month year month =
    if month == 2
    then (if is_leap year then 29 else 28)
    else if month == 4 || month == 6 || (month == 9 || month == 11)
    then 30
    else 31

-- The days of the first so many months of a year.
abbrev days_of_months : ℕ → ℕ → ℕ
days_of_months year zero = 0
days_of_months year (suc m) = days_of_months year m + days_in_month year (suc m)

abbrev days_before_year : ℕ → ℕ
days_before_year year = (year - 1) * 365 + (year - 1) / 4 - (year - 1) / 100 + (year - 1) / 400

-- `date(year, month, day)`, nothing where it raises ValueError.
abbrev pub date_of : ℕ → ℕ → ℕ → Option ℕ
date_of year month day =
    if leb 1 year
      && leb year 9999
      && (leb 1 month && leb month 12)
      && (leb 1 day && leb day (days_in_month year month))
    then some (days_before_year year + days_of_months year (month - 1) + day)
    else none
