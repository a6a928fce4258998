-- ===== src/Domain/Plan/Copy.antt =====
-- Copies: a day onto another day, a plan onto another week, a plan through its dictionary.
use planmaker.Common.{
  ◌+◌, ◌-◌, ◌≡◌, refl, sym, ◌∙◌, ap, Bool, true, false, Option, none, some, List, [], ◌∷◌, map,
  if◌then◌else◌, arith, length, select, is_some, suc, ◌==◌, ◌&&◌, Option-cases, inl, inr,
}
use planmaker.Common.Result.{Result, ok, >>=-eq_ok, ok-injective}
use planmaker.Common.Settings.{Settings}
use planmaker.Calendar.{Date, Weekday, weekday_eq, saturday_of, PlanDate, range}
use planmaker.Calendar.Ranges.{weekday_eq_iff}
use planmaker.Domain.Activity.{Activity}
use planmaker.Domain.Day.{PlanDay}
use planmaker.Domain.Plan.{
  WeeklyPlan, draft, empty_day, all_rows, dated, apply_range, apply_week_start, post_init,
  plan_days, sort_dated, insert_dated, is_calendar_week, day, replace_day, copy_day, undated, both,
  blank_clone, duplicate, to_dict, from_dict,
}
use planmaker.Domain.Plan.Rows.{row, or_row, row-all_rows}

abbrev with_cells : List Activity → Option PlanDay → Option PlanDay
with_cells as' none = none
with_cells as' (some d) = some (record d { activities = as' })

row-replace_day :
    (v w : Weekday) (as' : List Activity) (ds : List PlanDay)
    → row w (replace_day v as' ds)
      ≡ (if weekday_eq v w then with_cells as' (row w ds) else row w ds)
unfolding replace_day
row-replace_day v w as' [] = ground arith
row-replace_day v w as' (d ∷ ds) = ground (arith, row-replace_day v w as' ds)

day-row : (p : WeeklyPlan) (w : Weekday) (d : PlanDay) → day p w ≡ ok d → row w p.days ≡ some d
unfolding day
day-row p w d h = ground arith

row-eq : (v w : Weekday) (ds : List PlanDay) → weekday_eq v w ≡ true → row w ds ≡ row v ds
row-eq v w ds h = ap (λ u. row u ds) (sym ((weekday_eq_iff v w).0 h))

-- A day is copied only between rows that exist. The target row then has the source's activities
-- and keeps its date, and every other row is as before, the source too.
pub copy_day_lem :
    (p q : WeeklyPlan) (src dst : Weekday)
    → copy_day p src dst ≡ ok q
    → (s : PlanDay) × (t : PlanDay) × (row src p.days ≡ some s)
      × (row dst p.days ≡ some t)
      × ((w : Weekday)
          → row w q.days ≡ (
              if weekday_eq dst w
              then some (record t { activities = s.activities })
              else row w p.days))
unfolding copy_day
copy_day_lem p q src dst h =
    let (s, source, h') = >>=-eq_ok (day p src) _ h in
    let (t, target, h'') = >>=-eq_ok (day p dst) _ h' in
    (
      s,
      t,
      day-row p src s source,
      day-row p dst t target,
      λ w. rw (← ok-injective h'') (
          row-replace_day dst w s.activities p.days
          ∙ ground (arith, row-eq dst w p.days, day-row p dst t target)),
    )

-- The activities of a weekday.
abbrev pub cell_row : Option PlanDay → List Activity
cell_row none = []
cell_row (some d) = d.activities

abbrev date_if : List PlanDate → Option PlanDay → Option PlanDay
date_if in_range none = none
date_if in_range (some d) = some (dated in_range d)

row-dated :
    (in_range : List PlanDate) (w : Weekday) (ds : List PlanDay)
    → row w (map (dated in_range) ds) ≡ date_if in_range (row w ds)
row-dated in_range w [] = refl
row-dated in_range w (d ∷ ds) = ground (arith, row-dated in_range w ds)

cell_row-date_if :
    (in_range : List PlanDate) (o : Option PlanDay) → cell_row (date_if in_range o) ≡ cell_row o
cell_row-date_if in_range none = refl
cell_row-date_if in_range (some d) = refl

cell_row-undated :
    (w : Weekday) (ds : List PlanDay) → cell_row (row w (map undated ds)) ≡ cell_row (row w ds)
cell_row-undated w [] = refl
cell_row-undated w (d ∷ ds) = ground (arith, cell_row-undated w ds)

cell_row-or_row :
    (w : Weekday) (o : Option PlanDay) → cell_row (or_row o (some (empty_day w))) ≡ cell_row o
cell_row-or_row w none = refl
cell_row-or_row w (some d) = refl

-- What `apply_range` leaves alone.
record SameContent (p q : WeeklyPlan) : Type 0 where
  status : q.status ≡ p.status
  version : q.version ≡ p.version
  assignments : q.assignments ≡ p.assignments
  cells : (w : Weekday) → cell_row (row w q.days) ≡ cell_row (row w p.days)

apply_range-content :
    (cfg : Settings) (p q : WeeklyPlan) (start end : Date)
    → apply_range cfg p start end ≡ ok q
    → SameContent p q × (q.week_start ≡ some start) × (q.week_end ≡ some end)
unfolding apply_range
apply_range-content cfg p q start end h =
    let (in_range, e, done) = >>=-eq_ok (range cfg start end none) _ h in
    rw (← ok-injective done) (
      record {
        status = refl;
        version = refl;
        assignments = refl;
        cells = λ w.
            ap cell_row (row-dated in_range w p.days) ∙ cell_row-date_if in_range (row w p.days);
      },
      refl,
      refl,
    )

post_init-content :
    (cfg : Settings) (p q : WeeklyPlan)
    → p.week_start ≡ none
    → post_init cfg p ≡ ok q
    → SameContent p q
unfolding post_init
post_init-content cfg p q h e =
    let made : record p { days = all_rows p.days } ≡ q = ground arith in
    rw (← made) (record {
      status = refl;
      version = refl;
      assignments = refl;
      cells = λ w. ap cell_row (row-all_rows w p.days) ∙ cell_row-or_row w (row w p.days);
    })

-- The week that `duplicate` gives its clone.
abbrev new_week : Option (Date × Date) → Bool → Date → Date × Date
new_week none calendar d = (saturday_of d, saturday_of d + 6)
new_week (some (start, end)) true d = (saturday_of d, saturday_of d + 6)
new_week (some (start, end)) false d = (d, d + end - start)

abbrev redate : Settings → WeeklyPlan → Option (Date × Date) → Bool → Date → Result WeeklyPlan
redate cfg clone week calendar d = elim week [
  | none ↦ apply_week_start cfg clone d
  | some (start, end) ↦
      if calendar then apply_week_start cfg clone d else apply_range cfg clone d (d + end - start)
]

redate-eq :
    (cfg : Settings) (clone : WeeklyPlan) (week : Option (Date × Date)) (calendar : Bool) (d : Date)
    → redate cfg clone week calendar d
      ≡ apply_range cfg clone (new_week week calendar d).0 (new_week week calendar d).1
unfolding apply_week_start
redate-eq cfg clone none calendar d = refl
redate-eq cfg clone (some (start, end)) true d = refl
redate-eq cfg clone (some (start, end)) false d = refl

duplicate-content :
    (cfg : Settings) (p q : WeeklyPlan) (d : Date)
    → duplicate cfg p d ≡ ok q
    → let week = new_week (both p.week_start p.week_end) (is_calendar_week p) d in
      SameContent (blank_clone p) q × (q.week_start ≡ some week.0) × (q.week_end ≡ some week.1)
unfolding duplicate
duplicate-content cfg p q d h =
    let (clone, made, h') = >>=-eq_ok (post_init cfg (blank_clone p)) _ h in
    let moved =
      sym (redate-eq cfg clone (both p.week_start p.week_end) (is_calendar_week p) d) ∙ h' in
    let (c, start, end) = apply_range-content cfg clone q _ _ moved in
    let b = post_init-content cfg (blank_clone p) clone refl made in
    (
      record {
        status = c.status ∙ b.status;
        version = c.version ∙ b.version;
        assignments = c.assignments ∙ b.assignments;
        cells = λ w. c.cells w ∙ b.cells w;
      },
      start,
      end,
    )

-- A duplicate is a new draft, version 1, with the original's assignments and, on every weekday,
-- the original's activities.
pub duplicate_content :
    (cfg : Settings) (p q : WeeklyPlan) (d : Date)
    → duplicate cfg p d ≡ ok q
    → (q.status ≡ draft)
      × (q.version ≡ 1)
      × (q.assignments ≡ p.assignments)
      × ((w : Weekday) → cell_row (row w q.days) ≡ cell_row (row w p.days))
duplicate_content cfg p q d h =
    let (c, start, end) = duplicate-content cfg p q d h in
    (c.status, c.version, c.assignments, λ w. c.cells w ∙ cell_row-undated w p.days)

-- A range of seven days whose seven rows all have a date, on whichever weekday it begins.
abbrev pub covers_week : List PlanDay → Date → Date → Bool
covers_week days start end =
    (end == start + 6) && (length (select (λ (d : PlanDay). is_some d.date) days) == 7)

length-insert_dated :
    (x : Date) (d : PlanDay) (es : List (Date × PlanDay))
    → length (insert_dated x d es) ≡ suc (length es)
unfolding insert_dated
length-insert_dated x d [] = refl
length-insert_dated x d (e ∷ es) = ground (arith, length-insert_dated x d es)

length-sort_dated :
    (ds : List PlanDay)
    → length (sort_dated ds) ≡ length (select (λ (d : PlanDay). is_some d.date) ds)
unfolding sort_dated
length-sort_dated [] = refl
length-sort_dated (d ∷ ds) = elim (Option-cases d.date) [
  | inl none_yet ↦ rw none_yet (length-sort_dated ds)
  | inr (x, dated_on) ↦
      rw dated_on (length-insert_dated x d (sort_dated ds) ∙ ap suc (length-sort_dated ds))
]

length-firsts : (es : List (Date × PlanDay)) → length (map (λ e. e.1) es) ≡ length es
length-firsts [] = refl
length-firsts (e ∷ es) = ap suc (length-firsts es)

is_calendar_week-covers_week :
    (p : WeeklyPlan) (start end : Date)
    → p.week_start ≡ some start
    → p.week_end ≡ some end
    → is_calendar_week p ≡ covers_week p.days start end
unfolding is_calendar_week plan_days
is_calendar_week-covers_week p start end hs he =
    rw (hs, he)
      (ap (λ n. (end == start + 6) && (n == 7))
        (length-firsts (sort_dated p.days) ∙ length-sort_dated p.days))

-- A plan whose range has seven days, all seven of them with a row that is dated, is put on the week
-- of the new date, Saturday to Friday, on whichever weekday the range begins; any other plan with a
-- start and an end keeps its length and starts exactly on the new date.
pub duplicate_week :
    (cfg : Settings) (p q : WeeklyPlan) (d start end : Date)
    → p.week_start ≡ some start
    → p.week_end ≡ some end
    → duplicate cfg p d ≡ ok q
    → (q.week_start ≡ some (if covers_week p.days start end then saturday_of d else d))
      × (q.week_end
          ≡ some (if covers_week p.days start end then saturday_of d + 6 else d + end - start))
duplicate_week cfg p q d start end hs he h =
    let (c, from, to) = duplicate-content cfg p q d h in
    let given : both p.week_start p.week_end ≡ some (start, end) = ground arith in
    let counts = is_calendar_week-covers_week p start end hs he in rw (← counts) (ground arith)

post_init-start :
    (cfg : Settings) (p : WeeklyPlan) (start : Date)
    → p.week_start ≡ some start
    → post_init cfg p
      ≡ apply_range cfg
          (record p { days = all_rows p.days })
          (saturday_of start)
          (saturday_of start + 6)
unfolding post_init apply_week_start
post_init-start cfg p start h = ground arith

-- A plan with a start date does not keep its week through `to_dict` and `from_dict`: it comes back
-- on the calendar week around its start, whatever its own week was.
pub from_dict-to_dict :
    (cfg : Settings) (p q : WeeklyPlan) (start : Date)
    → p.week_start ≡ some start
    → from_dict cfg (to_dict p) ≡ ok q
    → (q.week_start ≡ some (saturday_of start)) × (q.week_end ≡ some (saturday_of start + 6))
unfolding from_dict to_dict
from_dict-to_dict cfg p q start hs h =
    let (c, from, to) =
      apply_range-content cfg _ q (saturday_of start) (saturday_of start + 6)
        (sym (post_init-start cfg _ start hs) ∙ h) in
    (from, to)
