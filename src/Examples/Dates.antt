-- ===== src/Examples/Dates.antt =====
-- The calendar on concrete dates: ordinal 13 is a Saturday.
use planmaker.Common.{ℕ, ◌+◌, ◌-◌, ◌≤◌, ◌≡◌, refl, none, some, length, get_elem?, All, arith}
use planmaker.Common.Result.{ok}
use planmaker.Calendar.{validate_range, plan_dates, range}
use planmaker.Calendar.Ranges.{range_lists_days, nth_day}
use planmaker.Domain.Plan.{WeeklyPlan, apply_range}
use planmaker.Domain.Plan.Rows.{apply_range_dates_rows, IsDatedBy, cells}
use planmaker.Examples.{cfg, sheet, value_or}

three_days : range cfg 15 17 none ≡ ok (plan_dates 15 0 3)
unfolding range validate_range
three_days = refl

range_lists_days_example :
    (15 ≤ 17)
    × (length (plan_dates 15 0 3) ≡ 17 - 15 + 1)
    × ((k : ℕ) → 15 + k ≤ 17 → get_elem? (plan_dates 15 0 3) k ≡ some (nth_day 15 k))
range_lists_days_example = range_lists_days cfg 15 17 none (plan_dates 15 0 3) three_days

abbrev moved : WeeklyPlan
moved = value_or sheet (apply_range cfg sheet 15 17)

moved-ok : apply_range cfg sheet 15 17 ≡ ok moved
unfolding apply_range range validate_range
moved-ok = refl

apply_range_dates_rows_example :
    (moved.week_start ≡ some 15)
    × (moved.week_end ≡ some 17)
    × All (IsDatedBy 15 17) moved.days
    × (cells moved.days ≡ cells sheet.days)
apply_range_dates_rows_example = apply_range_dates_rows cfg sheet moved 15 17 (omega arith) moved-ok
