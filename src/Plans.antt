-- ===== src/Plans.antt =====
-- app/repositories/repositories.py, PlanRepository: what changes a plan, and the queries that the
-- services decide by.
pub mod Slots
pub mod Listing
use planmaker.Common.{
  ℕ, zero, suc, ◌+◌, ◌-◌, Bool, true, false, not, ◌&&◌, ◌||◌, Option, none, some, List, [], ◌∷◌,
  ◌++◌, map, ltb, ◌==◌, if◌then◌else◌, select, any, find,
}
use planmaker.Common.Text.{Text, is_empty, strip}
use planmaker.Common.Result.{Result, value_error}
use planmaker.Common.Settings.{Settings}
use planmaker.Calendar.{Date, Weekday, weekday_eq, PlanDate, range}
use planmaker.Domain.Activity.{Activity, has_text}
use planmaker.Domain.Plan.{Assignment, PlanStatus, draft, ready, generated, sent, archived}
use planmaker.Database.{Db, Time, DayRow, FileRow, PlanRow}
use planmaker.Database.Action.{
  Action, pure, gets, lift, raise, raise_if, modify, if_none, ◌>>=◌, ◌>>◌,
}

unfoldable pub get : ℕ → Db → Option PlanRow
get i db = find (λ p. p.id == i) db.plans

abbrev pub update_plan : ℕ → (PlanRow → PlanRow) → List PlanRow → List PlanRow
update_plan i f [] = []
update_plan i f (p ∷ ps) = if p.id == i then f p ∷ ps else p ∷ update_plan i f ps

unfoldable pub set_plan : ℕ → (PlanRow → PlanRow) → Action (Unit {0})
set_plan i f = modify (λ db. record db { plans = update_plan i f db.plans })

abbrev pub day_row : PlanDate → DayRow
day_row d = record {
  weekday = d.weekday_key;
  day_index = d.index - 1;
  date = some d.date;
  activities = [];
}

abbrev pub new_plan : ℕ → ℕ → ℕ → Date → Date → List PlanDate → PlanRow
new_plan i student_id advisor_id week_start week_end days = record {
  id = i;
  student_id = student_id;
  advisor_id = advisor_id;
  week_start = week_start;
  week_end = week_end;
  status = draft;
  version = 1;
  template_version = none;
  renderer_version = none;
  plan_hash = none;
  image_path = none;
  pdf_path = none;
  image_file_id = none;
  pdf_file_id = none;
  generated_at = none;
  sent_at = none;
  days = map day_row days;
  assignments = [];
  files = [];
}

-- The days of a new plan come from the calendar.
unfoldable pub create : Settings → ℕ → ℕ → Date → Date → Action PlanRow
create cfg student_id advisor_id week_start week_end = do
  days ← lift (range cfg week_start week_end none)
  i ← gets (λ db. db.next_plan)
  modify λ db. record db {
    plans = db.plans ++ new_plan i student_id advisor_id week_start week_end days ∷ [];
    next_plan = db.next_plan + 1;
  }
  pure (new_plan i student_id advisor_id week_start week_end days)

unfoldable pub find_by_week : ℕ → Date → Db → Option PlanRow
find_by_week student_id week_start db =
    find (λ p. (p.student_id == student_id) && (p.week_start == week_start)) db.plans

-- The plan with the latest start, the first of those in the table.
abbrev pub later_of : PlanRow → Option PlanRow → PlanRow
later_of p none = p
later_of p (some q) = if ltb p.week_start q.week_start then q else p

abbrev pub latest : List PlanRow → Option PlanRow
latest [] = none
latest (p ∷ ps) = some (later_of p (latest ps))

unfoldable pub previous_plan : ℕ → Date → Db → Option PlanRow
previous_plan student_id before db =
    latest (select (λ p. (p.student_id == student_id) && ltb p.week_start before) db.plans)

unfoldable pub older_than : Date → Db → List PlanRow
older_than cutoff db = select (λ p. ltb p.week_end cutoff) db.plans

-- `day(plan_id, weekday)`: a plan has at most one row for a weekday.
abbrev pub day_of : Weekday → PlanRow → Option DayRow
day_of w p = find (λ d. weekday_eq d.weekday w) p.days

abbrev pub plan_day : Weekday → Option PlanRow → Option DayRow
plan_day w none = none
plan_day w (some p) = day_of w p

unfoldable pub day : ℕ → Weekday → Db → Option DayRow
day plan_id w db = plan_day w (get plan_id db)

abbrev pub update_day : Weekday → (DayRow → DayRow) → List DayRow → List DayRow
update_day w f [] = []
update_day w f (d ∷ ds) = if weekday_eq d.weekday w then f d ∷ ds else d ∷ update_day w f ds

abbrev pub on_day : Weekday → (List Activity → List Activity) → PlanRow → PlanRow
on_day w f p = record p {
  days = update_day w (λ d. record d { activities = f d.activities }) p.days;
}

unfoldable pub clear_day : ℕ → Weekday → Action (Unit {0})
clear_day plan_id w = do
  found ← gets (day plan_id w)
  if_none found (pure tt) (λ d. set_plan plan_id (on_day w (λ _. [])))

-- `any(v.strip() for v in values.values())`: here the notes count.
abbrev pub has_values : Activity → Bool
has_values a =
    has_text a.subject
    || has_text a.topic
    || has_text a.description
    || has_text a.duration
    || has_text a.notes

-- The cells of a day without those of the slot, and with the new one behind them.
abbrev pub write_slot : ℕ → Option Activity → List Activity → List Activity
write_slot i none as' = select (λ a. not (a.slot_index == i)) as'
write_slot i (some v) as' =
    select (λ a. not (a.slot_index == i)) as'
    ++ (if has_values v then record v { slot_index = i } ∷ [] else [])

unfoldable pub set_slot : ℕ → Weekday → ℕ → Option Activity → Action (Unit {0})
set_slot plan_id w slot_index values = do
  found ← gets (day plan_id w)
  if_none found (raise value_error)
      (λ d. set_plan plan_id (on_day w (write_slot slot_index values)))

abbrev pub numbered : ℕ → List Text → List Assignment
numbered i [] = []
numbered i (t ∷ ts) = record { text = t; order = i } ∷ numbered (i + 1) ts

-- `(t.strip() for t in texts if t.strip())`
abbrev pub stripped : List Text → List Text
stripped ts = select (λ t. not (is_empty t)) (map strip ts)

unfoldable pub replace_assignments : ℕ → List Text → Action (Unit {0})
replace_assignments plan_id texts =
    set_plan plan_id (λ p. record p { assignments = numbered 0 (stripped texts) })

-- What a renderer reports of a generated plan.
pub record Artifacts : Type 0 where
  pub image_path : Text
  pub pdf_path : Text
  pub plan_hash : Text
  pub template_version : Text
  pub renderer_version : Text

abbrev pub file_row : ℕ → Artifacts → FileRow
file_row version g = record {
  version = version;
  plan_hash = g.plan_hash;
  image_path = g.image_path;
  pdf_path = g.pdf_path;
  template_version = g.template_version;
  renderer_version = g.renderer_version;
}

abbrev pub with_artifacts : Time → Artifacts → PlanRow → PlanRow
with_artifacts now g p = record p {
  status = generated;
  image_path = some g.image_path;
  pdf_path = some g.pdf_path;
  plan_hash = some g.plan_hash;
  template_version = some g.template_version;
  renderer_version = some g.renderer_version;
  generated_at = some now;
  files = p.files ++ file_row p.version g ∷ [];
}

unfoldable pub mark_generated : Time → PlanRow → Artifacts → Action (Unit {0})
mark_generated now p g = set_plan p.id (with_artifacts now g)

-- `plan.status in (GENERATED, SENT)`
abbrev pub is_issued : PlanStatus → Bool
is_issued generated = true
is_issued sent = true
is_issued _ = false

abbrev pub bumped : PlanRow → PlanRow
bumped p =
    if is_issued p.status
    then record p {
      version = p.version + 1;
      status = draft;
      image_file_id = none;
      pdf_file_id = none;
    }
    else p

unfoldable pub bump_version : PlanRow → Action (Unit {0})
bump_version p = set_plan p.id bumped

-- The plan goes with its days, activities, assignments and file records.
unfoldable pub delete : PlanRow → Action (Unit {0})
delete p = modify (λ db. record db { plans = select (λ q. not (q.id == p.id)) db.plans })
