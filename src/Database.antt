-- ===== src/Database.antt =====
-- app/db/models.py: the rows of the tables, and the database as the state of every operation.
--
-- A row holds the columns that the modelled code reads or writes; created_at, updated_at, phone
-- and the texts of audit details are left out. The children of a plan (days with their
-- activities, assignments, files) are nested in its row, since the relationships cascade and own
-- them. Times are microseconds. The unique constraints of the tables are not modelled.
pub mod Action
pub mod Keeps
use planmaker.Common.{ℕ, Bool, Option, List}
use planmaker.Common.Text.{Text}
use planmaker.Calendar.{Date, Weekday}
use planmaker.Domain.Activity.{Activity}
use planmaker.Domain.Plan.{Assignment, PlanStatus}
use Prim.Native.String.{String}

abbrev pub Time : Type 0
Time = ℕ

pub data Role : Type 0 where
  admin advisor student : Role

pub record User : Type 0 where
  pub id : ℕ
  pub telegram_id : Option ℕ
  pub full_name : Text
  pub username : Option Text
  pub role : Role
  pub grade : Option Text
  pub is_active : Bool
  pub invite_token : Option Text
  pub invite_expires_at : Option Time
  pub invite_issued_at : Option Time
  pub created_by_id : Option ℕ

-- AdvisorStudent: the advisor may touch the student.
pub record Link : Type 0 where
  pub advisor_id : ℕ
  pub student_id : ℕ

pub data RequestStatus : Type 0 where
  pending approved rejected : RequestStatus

pub record AccessRequest : Type 0 where
  pub id : ℕ
  pub telegram_id : ℕ
  pub full_name : Text
  pub username : Option Text
  pub status : RequestStatus
  pub visits : ℕ
  pub last_seen_at : Time
  pub handled_by_id : Option ℕ
  pub granted_role : Option Role

-- PlanDayDB with its activities.
pub record DayRow : Type 0 where
  pub weekday : Weekday
  pub day_index : ℕ
  pub date : Option Date
  pub activities : List Activity

-- PlanFile: one generated version.
pub record FileRow : Type 0 where
  pub version : ℕ
  pub plan_hash : Text
  pub image_path : Text
  pub pdf_path : Text
  pub template_version : Text
  pub renderer_version : Text

-- WeeklyPlanDB with its children.
pub record PlanRow : Type 0 where
  pub id : ℕ
  pub student_id : ℕ
  pub advisor_id : ℕ
  pub week_start : Date
  pub week_end : Date
  pub status : PlanStatus
  pub version : ℕ
  pub template_version : Option Text
  pub renderer_version : Option Text
  pub plan_hash : Option Text
  pub image_path : Option Text
  pub pdf_path : Option Text
  pub image_file_id : Option Text
  pub pdf_file_id : Option Text
  pub generated_at : Option Time
  pub sent_at : Option Time
  pub days : List DayRow
  pub assignments : List Assignment
  pub files : List FileRow

pub record AuditRow : Type 0 where
  pub action : String
  pub actor_id : Option ℕ
  pub plan_id : Option ℕ
  pub student_id : Option ℕ

-- The tables, the sequences that number new rows, and the files on disk by their resolved path.
pub record Db : Type 0 where
  pub users : List User
  pub links : List Link
  pub requests : List AccessRequest
  pub plans : List PlanRow
  pub audit : List AuditRow
  pub next_user : ℕ
  pub next_request : ℕ
  pub next_plan : ℕ
  pub disk : List Text
