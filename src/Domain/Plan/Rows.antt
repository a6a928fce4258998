-- ===== src/Domain/Plan/Rows.antt =====
-- The rows of the sheet and their dates.
use planmaker.Common.{
  ◌≤◌, ◌≡◌, refl, ◌∙◌, ap, ◌↔◌, true, false, Option, none, some, List, [], ◌∷◌, ◌++◌, map,
  if◌then◌else◌, find, arith, All, Bool-cases, inl, inr,
}
use planmaker.Common.Result.{ok, >>=-eq_ok, ok-injective}
use planmaker.Common.Settings.{Settings}
use planmaker.Calendar.{Date, Weekday, saturday, index_of, weekday_eq, weekday_key, PlanDate, range}
use planmaker.Calendar.Ranges.{date_of-range}
use planmaker.Domain.Day.{PlanDay}
use planmaker.Domain.Activity.{Activity}
use planmaker.Domain.Plan.{
  WeeklyPlan, empty_day, insert_day, sort_days, has_row, missing_rows, all_rows, dated, apply_range,
}

-- The row is dated by x exactly when x is in the range and falls on the row's weekday.
abbrev pub IsDatedBy : Date → Date → PlanDay → Type 0
IsDatedBy start end row =
    (x : Date) → (row.date ≡ some x) ↔ ((start ≤ x) × (x ≤ end) × (weekday_key x ≡ row.weekday))

dated-IsDatedBy :
    (cfg : Settings) (start end : Date) (in_range : List PlanDate) (ds : List PlanDay)
    → cfg.max_plan_range_days ≤ 7
    → range cfg start end none ≡ ok in_range
    → All (IsDatedBy start end) (map (dated in_range) ds)
dated-IsDatedBy cfg start end in_range [] small h = tt
dated-IsDatedBy cfg start end in_range (d ∷ ds) small h = (
  λ x. date_of-range cfg start end in_range d.weekday x small h,
  dated-IsDatedBy cfg start end in_range ds small h,
)

-- The cells of every row, without the dates.
abbrev pub cells : List PlanDay → List (Weekday × List Activity)
cells ds = map (λ d. (d.weekday, d.activities)) ds

pub cells-dated :
    (in_range : List PlanDate) (ds : List PlanDay) → cells (map (dated in_range) ds) ≡ cells ds
cells-dated in_range [] = refl
cells-dated in_range (d ∷ ds) = ap (λ r. (d.weekday, d.activities) ∷ r) (cells-dated in_range ds)

-- Where the limit is a week, an accepted custom range becomes the plan's week and dates the rows:
-- a row has a date exactly when the range has a day on the row's weekday, and it is that day's
-- date. The activities of every row stay.
pub apply_range_dates_rows :
    (cfg : Settings) (p q : WeeklyPlan) (start end : Date)
    → cfg.max_plan_range_days ≤ 7
    → apply_range cfg p start end ≡ ok q
    → (q.week_start ≡ some start)
      × (q.week_end ≡ some end)
      × All (IsDatedBy start end) q.days
      × (cells q.days ≡ cells p.days)
unfolding apply_range
apply_range_dates_rows cfg p q start end small h =
    let (in_range, e, done) = >>=-eq_ok (range cfg start end none) _ h in
    rw (← ok-injective done) (
      refl,
      refl,
      dated-IsDatedBy cfg start end in_range p.days small e,
      cells-dated in_range p.days,
    )

-- The first row of a weekday.
abbrev pub row : Weekday → List PlanDay → Option PlanDay
row w ds = find (λ d. weekday_eq d.weekday w) ds

row-insert_day :
    (w : Weekday) (d : PlanDay) (ds : List PlanDay)
    → row w (insert_day d ds) ≡ (if weekday_eq d.weekday w then some d else row w ds)
unfolding insert_day
row-insert_day w d [] = refl
row-insert_day w d (e ∷ es) = ground (arith, row-insert_day w d es)

row-sort_days : (w : Weekday) (ds : List PlanDay) → row w (sort_days ds) ≡ row w ds
unfolding sort_days
row-sort_days w [] = refl
row-sort_days w (d ∷ ds) = ground (arith, row-insert_day w d (sort_days ds), row-sort_days w ds)

abbrev pub or_row : Option PlanDay → Option PlanDay → Option PlanDay
or_row none o = o
or_row (some d) o = some d

row-append : (w : Weekday) (ds es : List PlanDay) → row w (ds ++ es) ≡ or_row (row w ds) (row w es)
row-append w [] es = refl
row-append w (d ∷ ds) es = ground (arith, row-append w ds es)

row-has_row : (w : Weekday) (ds : List PlanDay) → has_row w ds ≡ false → row w ds ≡ none
row-has_row w [] h = refl
row-has_row w (d ∷ ds) h = ground (arith, row-has_row w ds)

has_row-row :
    (w : Weekday) (ds : List PlanDay) → has_row w ds ≡ true → (d : PlanDay) × (row w ds ≡ some d)
has_row-row w [] h = cc
has_row-row w (d ∷ ds) h = elim (Bool-cases (weekday_eq d.weekday w)) [
  | inl here ↦ (d, rw here)
  | inr later ↦ let (e, found) = has_row-row w ds (ground arith) in (e, rw later found)
]

row-missing_rows :
    (w : Weekday) (ds : List PlanDay)
    → has_row w ds ≡ false
    → row w (missing_rows ds) ≡ some (empty_day w)
unfolding index_of
row-missing_rows saturday ds h = ground arith
row-missing_rows _ ds h = ground arith

-- The constructor completes the sheet: every weekday has a row, the one that was given first for
-- that weekday, or an empty one where none was given.
pub row-all_rows :
    (w : Weekday) (ds : List PlanDay) → row w (all_rows ds) ≡ or_row (row w ds) (some (empty_day w))
unfolding all_rows
row-all_rows w ds =
    row-sort_days w (ds ++ missing_rows ds)
    ∙ row-append w ds (missing_rows ds)
    ∙ elim (Bool-cases (has_row w ds)) [
      | inl given ↦ let (d, found) = has_row-row w ds given in rw found
      | inr absent ↦ rw (row-has_row w ds absent, row-missing_rows w ds absent)
    ]
