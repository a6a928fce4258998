-- ===== src/Calendar.antt =====
-- app/domain/calendar.py: the weekday of a date, calendar weeks and date ranges.
--
-- A `date` is its proleptic Gregorian ordinal, `date.toordinal()`, so `value + timedelta(days=n)`
-- is an addition. A subtraction that would leave the range of `datetime` raises OverflowError in
-- Python and stops at 0 here: no theorem is about dates before ordinal 7.
pub mod Weekdays
pub mod Week
pub mod Ranges
use planmaker.Common.{
  ℕ, zero, suc, ◌+◌, ◌-◌, ◌*◌, ◌%◌, Bool, true, false, ◌&&◌, Option, none, some, List, [], ◌∷◌, ltb,
  ◌==◌, if◌then◌else◌, length,
}
use planmaker.Common.Int.{ℤ, pos_part, neg_part}
use planmaker.Common.Result.{Result, ok, err, date_range_error, ◌>>=◌}
use planmaker.Common.Settings.{Settings}

abbrev pub Date : Type 0
Date = ℕ

-- WEEKDAY_KEYS, in the order of the tuple.
pub data Weekday : Type 0 where
  saturday sunday monday tuesday wednesday thursday friday : Weekday

-- Python's `date.weekday()`, Monday = 0: ordinal 1 was a Monday.
unfoldable pub py_weekday : Date → ℕ
py_weekday d = (d + 6) % 7

-- The table `_PY_TO_INDEX`.
unfoldable pub py_to_index : ℕ → ℕ
py_to_index w =
    if w == 5
    then 0
    else if w == 6
    then 1
    else if w == 0
    then 2
    else if w == 1
    then 3
    else if w == 2
    then 4
    else if w == 3
    then 5
    else 6

-- 0 = Saturday … 6 = Friday.
unfoldable pub weekday_index : Date → ℕ
unfolding py_weekday py_to_index
weekday_index d = py_to_index (py_weekday d)

-- `WEEKDAY_KEYS[i]`
abbrev pub weekday_at : ℕ → Weekday
weekday_at zero = saturday
weekday_at (suc zero) = sunday
weekday_at (suc (suc zero)) = monday
weekday_at (suc (suc (suc zero))) = tuesday
weekday_at (suc (suc (suc (suc zero)))) = wednesday
weekday_at (suc (suc (suc (suc (suc zero))))) = thursday
weekday_at (suc (suc (suc (suc (suc (suc n)))))) = friday

-- `WEEKDAY_KEYS.index(key)`
unfoldable pub index_of : Weekday → ℕ
index_of saturday = 0
index_of sunday = 1
index_of monday = 2
index_of tuesday = 3
index_of wednesday = 4
index_of thursday = 5
index_of friday = 6

abbrev pub weekday_eq : Weekday → Weekday → Bool
weekday_eq v w = index_of v == index_of w

unfoldable pub weekday_key : Date → Weekday
weekday_key d = weekday_at (weekday_index d)

unfoldable pub add_days : Date → ℤ → Date
add_days d n = d + pos_part n - neg_part n

-- The Saturday on or before the date.
unfoldable pub saturday_of : Date → Date
saturday_of d = d - weekday_index d

-- One concrete day of a plan, at its position in the range (from 1).
pub record PlanDate : Type 0 where
  pub index : ℕ
  pub date : Date
  pub weekday_key : Weekday

-- `max_days or MAX_PLAN_RANGE_DAYS`: 0 is false too.
abbrev pub range_limit : Settings → Option ℕ → ℕ
range_limit cfg none = cfg.max_plan_range_days
range_limit cfg (some zero) = cfg.max_plan_range_days
range_limit cfg (some (suc n)) = suc n

unfoldable pub validate_range : Settings → Date → Date → Option ℕ → Result ℕ
validate_range cfg start end max_days =
    let limit = range_limit cfg max_days in
    let days = end - start + 1 in
    if ltb end start
    then err date_range_error
    else if ltb limit days
    then err date_range_error
    else ok days

-- The comprehension of `range`: `left` days from the i-th on.
pub plan_dates : Date → ℕ → ℕ → List PlanDate
plan_dates start i zero = []
plan_dates start i (suc left) =
    record { index = i + 1; date = start + i; weekday_key = weekday_key (start + i) }
    ∷ plan_dates start (i + 1) left

unfoldable pub range : Settings → Date → Date → Option ℕ → Result (List PlanDate)
unfolding plan_dates
range cfg start end max_days = do
  days ← validate_range cfg start end max_days
  ok (plan_dates start 0 days)

-- `today` is the clock's answer, read when no anchor is given.
unfoldable pub week_range : Settings → Date → Option Date → ℤ → Result (List PlanDate)
week_range cfg today anchor offset_weeks =
    let start = saturday_of (elim anchor [ none ↦ today | some a ↦ a ]) in
    let first = start + 7 * pos_part offset_weeks - 7 * neg_part offset_weeks in
    range cfg first (first + 6) none

abbrev last_is : Weekday → List PlanDate → Bool
last_is w [] = false
last_is w (d ∷ []) = weekday_eq d.weekday_key w
last_is w (d ∷ e ∷ ds) = last_is w (e ∷ ds)

abbrev first_is : Weekday → List PlanDate → Bool
first_is w [] = false
first_is w (d ∷ ds) = weekday_eq d.weekday_key w

unfoldable pub is_calendar_week : List PlanDate → Bool
unfolding index_of
is_calendar_week days = (length days == 7) && first_is saturday days && last_is friday days
