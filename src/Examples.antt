-- ===== src/Examples.antt =====
-- Concrete settings, accounts, plans and tables, on which the theorems are applied.
mod Backups
mod Archives
mod Dates
mod Sheets
mod Accounts
mod Editing
mod Files
mod Sheet
use planmaker.Common.{ℕ, Bool, true, false, Option, none, some, List, [], ◌∷◌}
use planmaker.Common.Text.{Text, codes, starts_with}
use planmaker.Common.Result.{Result, ok, err}
use planmaker.Common.Settings.{Settings}
use planmaker.Calendar.{Weekday, saturday, monday, friday}
use planmaker.Domain.Activity.{Activity}
use planmaker.Domain.Day.{PlanDay}
use planmaker.Domain.Plan.{Assignment, WeeklyPlan, PlanStatus, draft, generated}
use planmaker.Database.{
  Db, User, Role, admin, advisor, student, Link, AccessRequest, RequestStatus, pending, DayRow,
  FileRow, PlanRow,
}

-- The value of a call that returns, and `a` if it raises.
abbrev pub value_or {ℓ} : {A : Type ℓ} → A → Result A → A
value_or a (ok b) = b
value_or a (err e) = a

abbrev pub cfg : Settings
cfg = record {
  admin_ids = 7 ∷ [];
  max_plan_range_days = 7;
  resolve = λ p. p;
  inside_root = starts_with (codes "/data/");
}

abbrev pub math : Activity
math = record {
  slot_index = 2;
  subject = codes "math";
  topic = codes "sets";
  description = [];
  duration = [];
  notes = [];
}

abbrev pub homework : Assignment
homework = record { text = codes "read"; order = 0 }

abbrev pub math_day : PlanDay
math_day = record { weekday = monday; date = none; activities = math ∷ [] }

abbrev pub free_day : PlanDay
free_day = record { weekday = friday; date = none; activities = [] }

-- A sheet on the calendar week from ordinal 13.
abbrev pub sheet : WeeklyPlan
sheet = record {
  student_name = codes "Sara";
  student_id = some 3;
  advisor_id = some 2;
  week_start = some 13;
  week_end = some 19;
  status = generated;
  version = 4;
  template_version = none;
  days = math_day ∷ free_day ∷ [];
  assignments = homework ∷ [];
}

abbrev pub account : ℕ → Option ℕ → Role → Option Text → User
account i t role token = record {
  id = i;
  telegram_id = t;
  full_name = codes "Sara";
  username = none;
  role = role;
  grade = none;
  is_active = true;
  invite_token = token;
  invite_expires_at = some 100;
  invite_issued_at = none;
  created_by_id = none;
}

abbrev pub token : Text
token = codes "0123456789abcdef"

abbrev pub boss : User
boss = account 1 (some 7) admin none

abbrev pub coach : User
coach = account 2 (some 20) advisor none

abbrev pub pupil : User
pupil = account 3 none student (some token)

abbrev pub monday_row : DayRow
monday_row = record { weekday = monday; day_index = 2; date = some 15; activities = math ∷ [] }

abbrev pub plan : PlanRow
plan = record {
  id = 5;
  student_id = 3;
  advisor_id = 2;
  week_start = 13;
  week_end = 19;
  status = generated;
  version = 1;
  template_version = none;
  renderer_version = none;
  plan_hash = none;
  image_path = some (codes "/data/a.png");
  pdf_path = some (codes "/etc/passwd");
  image_file_id = none;
  pdf_file_id = none;
  generated_at = none;
  sent_at = none;
  days = monday_row ∷ [];
  assignments = [];
  files = [];
}

abbrev pub visit : AccessRequest
visit = record {
  id = 1;
  telegram_id = 30;
  full_name = codes "Reza";
  username = none;
  status = pending;
  visits = 1;
  last_seen_at = 0;
  handled_by_id = none;
  granted_role = none;
}

abbrev pub tables : Db
tables = record {
  users = boss ∷ coach ∷ pupil ∷ [];
  links = record { advisor_id = 2; student_id = 3 } ∷ [];
  requests = visit ∷ [];
  plans = plan ∷ [];
  audit = [];
  next_user = 4;
  next_request = 2;
  next_plan = 6;
  disk = codes "/data/a.png" ∷ codes "/etc/passwd" ∷ [];
}
