-- ===== src/Examples/Sheets.antt =====
-- Days and weeks of the domain model on a concrete sheet.
use planmaker.Common.{◌+◌, ◌-◌, ◌≡◌, refl, some, none, List, [], ◌∷◌, if◌then◌else◌, arith}
use planmaker.Common.Result.{ok}
use planmaker.Common.Text.{strip, is_space}
use planmaker.Calendar.{range, validate_range, weekday_index, saturday_of}
use planmaker.Domain.Activity.{activity_is_empty}
use planmaker.Domain.Day.{PlanDay, slot}
use planmaker.Domain.Day.Tidy.{IsTidy}
use planmaker.Domain.Day.Grid.{Write, assign_all, Refines, set_slots, set_slots-Refines}
use planmaker.Domain.Plan.{WeeklyPlan, post_init, duplicate, to_dict, from_dict, is_calendar_week}
use planmaker.Domain.Plan.Copy.{covers_week, duplicate_week, from_dict-to_dict}
use planmaker.Examples.{cfg, math, math_day, sheet, value_or}

tidy : IsTidy math_day
unfolding activity_is_empty strip is_space
tidy = record { ascending = (tt, tt); cells = ((omega arith, refl), tt) }

-- Slot 3 is filled, slot 0 cleared, slot 3 written again.
abbrev writes : List Write
writes = (3, some math) ∷ (0, none) ∷ (3, some math) ∷ []

set_slots-Refines_example :
    (e : PlanDay) × (set_slots math_day writes ≡ ok e)
    × Refines e (assign_all (slot math_day) writes)
set_slots-Refines_example =
    set_slots-Refines math_day (slot math_day) writes tidy (λ _. refl)
      (omega arith, (omega arith, (omega arith, tt)))

abbrev again : WeeklyPlan
again = value_or sheet (duplicate cfg sheet 29)

again-ok : duplicate cfg sheet 29 ≡ ok again
unfolding duplicate post_init is_calendar_week range validate_range
again-ok = refl

duplicate_week_example :
    (again.week_start ≡ some (if covers_week sheet.days 13 19 then saturday_of 29 else 29))
    × (again.week_end
        ≡ some (if covers_week sheet.days 13 19 then saturday_of 29 + 6 else 29 + 19 - 13))
duplicate_week_example = duplicate_week cfg sheet again 29 13 19 refl refl again-ok

-- A custom range, Monday to Wednesday.
abbrev custom : WeeklyPlan
custom = record sheet { week_start = some 15; week_end = some 17 }

abbrev restored : WeeklyPlan
restored = value_or sheet (from_dict cfg (to_dict custom))

restored-ok : from_dict cfg (to_dict custom) ≡ ok restored
unfolding from_dict to_dict post_init range validate_range saturday_of weekday_index
restored-ok = refl

from_dict-to_dict_example :
    (restored.week_start ≡ some (saturday_of 15)) × (restored.week_end ≡ some (saturday_of 15 + 6))
from_dict-to_dict_example = from_dict-to_dict cfg custom restored 15 refl restored-ok
