-- ===== src/Domain/Plan.antt =====
-- app/domain/models.py, class WeeklyPlan. The `id` is left out (see Activity); a student's and an
-- advisor's id are numbers here, texts there. Days are shared by reference in Python only within
-- one plan, and every method returns the changed plan here.
pub mod Rows
pub mod Copy
use planmaker.Common.{
  ℕ, zero, suc, ◌+◌, ◌-◌, Bool, true, false, not, ◌&&◌, Option, none, some, List, [], ◌∷◌, ◌++◌,
  map, ltb, leb, ◌==◌, if◌then◌else◌, select, any, find, length, is_some,
}
use planmaker.Common.Text.{Text, is_empty}
use planmaker.Common.Result.{Result, ok, err, key_error, ◌>>=◌}
use planmaker.Common.Settings.{Settings}
use planmaker.Calendar.{
  Date, Weekday, saturday, sunday, monday, tuesday, wednesday, thursday, friday, index_of,
  weekday_eq, saturday_of, PlanDate, range,
}
use planmaker.Calendar.Ranges.{date_of}
use planmaker.Domain.Activity.{Activity}
use planmaker.Domain.Day.{PlanDay, filled_count, day_is_empty, days_per_week}

-- PlanStatus, with the values of PlanStatusDB (app/db/models.py).
pub data PlanStatus : Type 0 where
  draft ready generated sent archived : PlanStatus

pub record Assignment : Type 0 where
  pub text : Text
  pub order : ℕ

pub record WeeklyPlan : Type 0 where
  pub student_name : Text
  pub student_id : Option ℕ
  pub advisor_id : Option ℕ
  pub week_start : Option Date
  pub week_end : Option Date
  pub status : PlanStatus
  pub version : ℕ
  pub template_version : Option Text
  pub days : List PlanDay
  pub assignments : List Assignment

abbrev pub weekday_keys : List Weekday
weekday_keys = saturday ∷ sunday ∷ monday ∷ tuesday ∷ wednesday ∷ thursday ∷ friday ∷ []

abbrev pub empty_day : Weekday → PlanDay
empty_day w = record { weekday = w; date = none; activities = [] }

-- `sort(key=lambda d: WEEKDAY_KEYS.index(d.weekday))`, stable.
pub insert_day : PlanDay → List PlanDay → List PlanDay
insert_day d [] = d ∷ []
insert_day d (e ∷ es) =
    if leb (index_of d.weekday) (index_of e.weekday) then d ∷ e ∷ es else e ∷ insert_day d es

pub sort_days : List PlanDay → List PlanDay
sort_days [] = []
sort_days (d ∷ ds) = insert_day d (sort_days ds)

-- `key not in present`
abbrev pub has_row : Weekday → List PlanDay → Bool
has_row w ds = any (λ d. weekday_eq d.weekday w) ds

abbrev pub missing_rows : List PlanDay → List PlanDay
missing_rows ds = map empty_day (select (λ w. not (has_row w ds)) weekday_keys)

-- The rows of the sheet: those given, those missing, in the order of the week.
unfoldable pub all_rows : List PlanDay → List PlanDay
unfolding sort_days insert_day
all_rows ds = sort_days (ds ++ missing_rows ds)

-- The loop `for day in self.days: day.date = in_range.get(day.weekday)`.
abbrev pub dated : List PlanDate → PlanDay → PlanDay
dated in_range d = record d { date = date_of d.weekday in_range }

unfoldable pub apply_range : Settings → WeeklyPlan → Date → Date → Result WeeklyPlan
apply_range cfg p start end = do
  in_range ← range cfg start end none
  ok (record p { week_start = some start; week_end = some end; days = map (dated in_range) p.days })

unfoldable pub apply_week_start : Settings → WeeklyPlan → Date → Result WeeklyPlan
unfolding apply_range
apply_week_start cfg p start =
    let saturday = saturday_of start in apply_range cfg p saturday (saturday + 6)

-- The constructor: `__init__` of the dataclass, then `__post_init__`.
unfoldable pub post_init : Settings → WeeklyPlan → Result WeeklyPlan
unfolding all_rows apply_week_start
post_init cfg p =
    let q : WeeklyPlan = record p { days = all_rows p.days } in
    elim p.week_start [ none ↦ ok q | some start ↦ apply_week_start cfg q start ]

-- `sorted(dated, key=lambda d: d.date)`, stable; a day without a date is not in the list.
pub insert_dated : Date → PlanDay → List (Date × PlanDay) → List (Date × PlanDay)
insert_dated x d [] = (x, d) ∷ []
insert_dated x d ((y, e) ∷ es) =
    if leb x y then (x, d) ∷ (y, e) ∷ es else (y, e) ∷ insert_dated x d es

pub sort_dated : List PlanDay → List (Date × PlanDay)
sort_dated [] = []
sort_dated (d ∷ ds) =
    let rest = sort_dated ds in elim d.date [ none ↦ rest | some x ↦ insert_dated x d rest ]

unfoldable pub plan_days : WeeklyPlan → List PlanDay
unfolding sort_dated insert_dated
plan_days p = map (λ e. e.1) (sort_dated p.days)

unfoldable pub day_count : WeeklyPlan → ℕ
unfolding plan_days
day_count p = length (plan_days p)

-- `week_end - week_start == timedelta(days=6)`, for a `date` on both sides.
abbrev six_days_apart : Option Date → Option Date → Bool
six_days_apart (some start) (some end) = end == start + 6
six_days_apart _ _ = false

unfoldable pub is_calendar_week : WeeklyPlan → Bool
unfolding plan_days
is_calendar_week p = six_days_apart p.week_start p.week_end && (length (plan_days p) == 7)

unfoldable pub day : WeeklyPlan → Weekday → Result PlanDay
day p w = elim (find (λ d. weekday_eq d.weekday w) p.days) [ none ↦ err key_error | some d ↦ ok d ]

pub sum_filled : List PlanDay → ℕ
sum_filled [] = 0
sum_filled (d ∷ ds) = filled_count d + sum_filled ds

unfoldable pub activity_count : WeeklyPlan → ℕ
unfolding plan_days sum_filled
activity_count p = sum_filled (plan_days p)

unfoldable pub filled_days : WeeklyPlan → ℕ
unfolding plan_days
filled_days p = length (select (λ d. not (day_is_empty d)) (plan_days p))

unfoldable pub plan_is_empty : WeeklyPlan → Bool
unfolding activity_count
plan_is_empty p = (activity_count p == 0) && is_empty p.assignments

-- The first row of the weekday is the one that `day` returns, so it is the one that is changed.
pub replace_day : Weekday → List Activity → List PlanDay → List PlanDay
replace_day w as' [] = []
replace_day w as' (d ∷ ds) =
    if weekday_eq d.weekday w then record d { activities = as' } ∷ ds else d ∷ replace_day w as' ds

unfoldable pub copy_day : WeeklyPlan → Weekday → Weekday → Result WeeklyPlan
unfolding replace_day day
copy_day p src dst = do
  source ← day p src
  target ← day p dst
  ok (record p { days = replace_day dst source.activities p.days })

-- The fresh copies of `duplicate` and `copy_day` have the fields of the originals but the label.
abbrev pub undated : PlanDay → PlanDay
undated d = record d { date = none }

abbrev pub both : Option Date → Option Date → Option (Date × Date)
both (some start) (some end) = some (start, end)
both _ _ = none

-- The clone that `duplicate` builds before it is given its dates.
abbrev pub blank_clone : WeeklyPlan → WeeklyPlan
blank_clone p = record {
  student_name = p.student_name;
  student_id = p.student_id;
  advisor_id = p.advisor_id;
  week_start = none;
  week_end = none;
  status = draft;
  version = 1;
  template_version = none;
  days = map undated p.days;
  assignments = p.assignments;
}

-- `new_week_start + timedelta(days=span)`, with span = (week_end - week_start).days.
unfoldable pub duplicate : Settings → WeeklyPlan → Date → Result WeeklyPlan
duplicate cfg p new_week_start = do
  clone ← post_init cfg (blank_clone p)
  elim (both p.week_start p.week_end) [
    | none ↦ apply_week_start cfg clone new_week_start
    | some (start, end) ↦
        if is_calendar_week p
        then apply_week_start cfg clone new_week_start
        else apply_range cfg clone new_week_start (new_week_start + end - start)
  ]

-- What `to_dict` writes: the fields, with each date as its ISO text, which reads back as the date.
pub record PlanData : Type 0 where
  pub student_name : Option Text
  pub student_id : Option ℕ
  pub advisor_id : Option ℕ
  pub week_start : Option Date
  pub week_end : Option Date
  pub status : Option PlanStatus
  pub version : Option ℕ
  pub days : List PlanDay
  pub assignments : List Assignment

unfoldable pub to_dict : WeeklyPlan → PlanData
to_dict p = record {
  student_name = some p.student_name;
  student_id = p.student_id;
  advisor_id = p.advisor_id;
  week_start = p.week_start;
  week_end = p.week_end;
  status = some p.status;
  version = some p.version;
  days = p.days;
  assignments = p.assignments;
}

abbrev pub or_default {ℓ} : {A : Type ℓ} → Option A → A → A
or_default none d = d
or_default (some a) d = a

-- `template_version` is not read back.
unfoldable pub from_dict : Settings → PlanData → Result WeeklyPlan
from_dict cfg d = post_init cfg (record {
  student_name = or_default d.student_name [];
  student_id = d.student_id;
  advisor_id = d.advisor_id;
  week_start = d.week_start;
  week_end = d.week_end;
  status = or_default d.status draft;
  version = or_default d.version 1;
  template_version = none;
  days = d.days;
  assignments = d.assignments;
})
