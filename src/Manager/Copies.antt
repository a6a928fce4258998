-- ===== src/Manager/Copies.antt =====
-- app/services/plan_manager.py, class PlanManager: to_domain and the operations that copy a day or a
-- week of rows through the domain model.
use planmaker.Common.{ℕ, ◌+◌, Option, none, some, List, [], ◌∷◌, map, ltb, if◌then◌else◌}
use planmaker.Common.Text.{Text}
use planmaker.Common.Result.{Result}
use planmaker.Common.Settings.{Settings}
use planmaker.Calendar.{Weekday}
use planmaker.Domain.Activity.{Activity, activity_is_empty}
use planmaker.Domain.Day.{PlanDay, sort_slots}
use planmaker.Domain.Plan.{Assignment, WeeklyPlan, PlanStatus, draft, sent, post_init}
use planmaker.Domain
use planmaker.Database.{User, DayRow, PlanRow}
use planmaker.Database.Action.{Action, pure, gets, lift, if_none, ◌>>=◌, ◌>>◌}
use planmaker.Users.{by_id}
use planmaker.Plans
use planmaker.Plans.{bump_version, older_than, set_plan, replace_assignments}
use planmaker.Plans.{previous_plan}
use planmaker.Manager.{get_editable, edited}

-- Rows come back from the database by `order_by`: days by day_index, activities by slot_index.
abbrev pub domain_day : DayRow → PlanDay
domain_day d = record { weekday = d.weekday; date = d.date; activities = sort_slots d.activities }

pub insert_row : DayRow → List DayRow → List DayRow
insert_row d [] = d ∷ []
insert_row d (e ∷ es) = if ltb e.day_index d.day_index then e ∷ insert_row d es else d ∷ e ∷ es

pub sort_rows : List DayRow → List DayRow
sort_rows [] = []
sort_rows (d ∷ ds) = insert_row d (sort_rows ds)

abbrev pub name_of : Option User → Text
name_of none = []
name_of (some u) = u.full_name

-- The constructor gets no week, so it dates no row; the stored week is assigned behind it.
unfoldable pub to_domain : Settings → Option User → PlanRow → Result WeeklyPlan
unfolding sort_rows insert_row
to_domain cfg owner p =
    elim (post_init cfg (record {
      student_name = name_of owner;
      student_id = some p.student_id;
      advisor_id = some p.advisor_id;
      week_start = none;
      week_end = none;
      status = draft;
      version = p.version;
      template_version = p.template_version;
      days = map domain_day (sort_rows p.days);
      assignments = p.assignments;
    })) [
      | Result.err e ↦ Result.err e
      | Result.ok d ↦
          Result.ok (record d { week_start = some p.week_start; week_end = some p.week_end })
    ]

-- `for activity in …: await self.plans.set_slot(…)`
pub set_slots : ℕ → Weekday → List Activity → Action (Unit {0})
set_slots plan_id w [] = pure tt
set_slots plan_id w (a ∷ as') = do
  Plans.set_slot plan_id w a.slot_index (some a)
  set_slots plan_id w as'

-- The row as the session sees it after `bump_version`: only version, status and file ids changed.
unfoldable pub copy_day : Settings → User → ℕ → Weekday → Weekday → Action (Unit {0})
unfolding set_slots
copy_day cfg actor plan_id src dst = do
  p ← get_editable cfg actor plan_id
  bump_version p
  owner ← gets (by_id p.student_id)
  d ← lift (to_domain cfg owner p)
  copied ← lift (Domain.Plan.copy_day d src dst)
  target ← lift (Domain.Plan.day copied dst)
  Plans.clear_day p.id dst
  set_slots p.id dst target.activities
  edited actor p

-- The activities of one day that are not empty, written one by one; how many were written.
pub copy_activities : ℕ → Weekday → List Activity → Action ℕ
copy_activities plan_id w [] = pure 0
copy_activities plan_id w (a ∷ as') =
    if activity_is_empty a then copy_activities plan_id w as' else do
      Plans.set_slot plan_id w a.slot_index (some a)
      copied ← copy_activities plan_id w as'
      pure (1 + copied)

pub copy_days : ℕ → List PlanDay → Action ℕ
copy_days plan_id [] = pure 0
copy_days plan_id (d ∷ ds) = do
  Plans.clear_day plan_id d.weekday
  here ← copy_activities plan_id d.weekday d.activities
  later ← copy_days plan_id ds
  pure (here + later)

unfoldable pub copy_previous_week : Settings → User → ℕ → Action ℕ
unfolding copy_days copy_activities
copy_previous_week cfg actor plan_id = do
  p ← get_editable cfg actor plan_id
  found ← gets (previous_plan p.student_id p.week_start)
  if_none found (pure 0) λ previous. do
    bump_version p
    owner ← gets (by_id previous.student_id)
    source ← lift (to_domain cfg owner previous)
    copied ← copy_days p.id source.days
    replace_assignments p.id (map (λ (a : Assignment). a.text) source.assignments)
    edited actor p
    pure copied
