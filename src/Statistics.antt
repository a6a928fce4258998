-- ===== src/Statistics.antt =====
-- app/services/admin_service.py, the counts of the administrator's panel: advisor_detail,
-- student_detail, db_stats and statistics.
--
-- The times of the audit log and the latency of the database are left out, and with them
-- `last_seen` and `latency_ms`.
pub mod Weeks
use planmaker.Common.{
  ℕ, ◌+◌, ◌-◌, ◌%◌, Bool, true, false, ◌||◌, ◌&&◌, Option, none, some, List, [], ◌∷◌, ◌++◌, ◌==◌,
  leb, select, length, is_some,
}
use planmaker.Common.Text.{Text, codes, text_eq}
use planmaker.Calendar.{Date, py_weekday}
use planmaker.Domain.Plan.{PlanStatus, draft, ready, generated, sent, archived}
use planmaker.Database.{Db, User, Role, admin, advisor, student, Link, DayRow, PlanRow, AuditRow}
use planmaker.Security.{role_eq}
use planmaker.Users.{by_id}

-- `select(func.count()).where(...)`
abbrev pub count {ℓ} : {A : Type ℓ} → (A → Bool) → List A → ℕ
count p xs = length (select p xs)

abbrev pub status_eq : PlanStatus → PlanStatus → Bool
status_eq draft draft = true
status_eq ready ready = true
status_eq generated generated = true
status_eq sent sent = true
status_eq archived archived = true
status_eq _ _ = false

-- `User.role.in_([Role.ADVISOR, Role.ADMIN])`
abbrev pub may_advise : User → Bool
may_advise u = role_eq u.role advisor || role_eq u.role admin

unfoldable pub count_advisors : Db → ℕ
count_advisors db = count may_advise db.users

unfoldable pub count_students : Db → ℕ
count_students db = count (λ (u : User). role_eq u.role student) db.users

pub record AdvisorDetail : Type 0 where
  pub advisor : User
  pub students : ℕ
  pub plans : ℕ
  pub drafts : ℕ
  pub sent : ℕ
  pub this_week : ℕ

-- `today - timedelta(days=today.weekday())`
abbrev pub monday_of : Date → Date
monday_of today = today - py_weekday today

abbrev pub detail_of : Db → Date → ℕ → User → AdvisorDetail
detail_of db today i u = record {
  advisor = u;
  students = count (λ (l : Link). l.advisor_id == i) db.links;
  plans = count (λ (p : PlanRow). p.advisor_id == i) db.plans;
  drafts = count (λ (p : PlanRow). (p.advisor_id == i) && status_eq p.status draft) db.plans;
  sent = count (λ (p : PlanRow). (p.advisor_id == i) && status_eq p.status sent) db.plans;
  this_week =
      count (λ (p : PlanRow). (p.advisor_id == i) && leb (monday_of today) p.week_start) db.plans;
}

-- `{}` for a number that no account has.
unfoldable pub advisor_detail : Db → Date → ℕ → Option AdvisorDetail
unfolding by_id
advisor_detail db today i = elim (by_id i db) [
  | none ↦ none
  | some u ↦ some (detail_of db today i u)
]

pub record StudentDetail : Type 0 where
  pub student : User
  pub advisors : List User
  pub plans : ℕ
  pub drafts : ℕ

-- The join of the accounts with the student's links; SQL leaves the order open.
abbrev pub advisors_of : ℕ → List User → List Link → List User
advisors_of i users [] = []
advisors_of i users (l ∷ ls) =
    select (λ (u : User). (l.student_id == i) && (l.advisor_id == u.id)) users
    ++ advisors_of i users ls

abbrev pub student_of : Db → ℕ → User → StudentDetail
student_of db i u = record {
  student = u;
  advisors = advisors_of i db.users db.links;
  plans = count (λ (p : PlanRow). p.student_id == i) db.plans;
  drafts = count (λ (p : PlanRow). (p.student_id == i) && status_eq p.status draft) db.plans;
}

unfoldable pub student_detail : Db → ℕ → Option StudentDetail
unfolding by_id
student_detail db i = elim (by_id i db) [ none ↦ none | some u ↦ some (student_of db i u) ]

abbrev pub sum_of {ℓ} : {A : Type ℓ} → (A → ℕ) → List A → ℕ
sum_of f [] = 0
sum_of f (x ∷ xs) = f x + sum_of f xs

pub record DbStats : Type 0 where
  pub users : ℕ
  pub advisors : ℕ
  pub students : ℕ
  pub plans : ℕ
  pub drafts : ℕ
  pub files : ℕ
  pub activities : ℕ

unfoldable pub db_stats : Db → DbStats
db_stats db = record {
  users = length db.users;
  advisors = count may_advise db.users;
  students = count (λ (u : User). role_eq u.role student) db.users;
  plans = length db.plans;
  drafts = count (λ (p : PlanRow). status_eq p.status draft) db.plans;
  files = sum_of (λ (p : PlanRow). length p.files) db.plans;
  activities =
      sum_of (λ (p : PlanRow). sum_of (λ (d : DayRow). length d.activities) p.days) db.plans;
}

-- `today - timedelta(days=(today.weekday() - 5) % 7)`, where `%` of Python is never negative.
abbrev pub week_of : Date → Date
week_of today = today - (py_weekday today + 2) % 7

unfoldable pub plans_since : Option Date → Db → ℕ
plans_since none db = length db.plans
plans_since (some since) db = count (λ (p : PlanRow). leb since p.week_start) db.plans

unfoldable pub count_status : PlanStatus → Db → ℕ
count_status status db = count (λ (p : PlanRow). status_eq p.status status) db.plans

unfoldable pub audit_count : Text → Db → ℕ
audit_count action db = count (λ (a : AuditRow). text_eq (codes a.action) action) db.audit

pub record Statistics : Type 0 where
  pub advisors : ℕ
  pub students : ℕ
  pub plans : ℕ
  pub drafts : ℕ
  pub sent : ℕ
  pub generated : ℕ
  pub today : ℕ
  pub week : ℕ
  pub month : ℕ
  pub invites_issued : ℕ
  pub invites_blocked : ℕ

-- `first_of_month` is `today.replace(day=1)`.
unfoldable pub statistics : (Date → Date) → Date → Db → Statistics
unfolding count_advisors count_students plans_since count_status audit_count
statistics first_of_month today db = record {
  advisors = count_advisors db;
  students = count_students db;
  plans = plans_since none db;
  drafts = count_status draft db;
  sent = count_status sent db;
  generated = count (λ (p : PlanRow). is_some p.generated_at) db.plans;
  today = plans_since (some today) db;
  week = plans_since (some (week_of today)) db;
  month = plans_since (some (first_of_month today)) db;
  invites_issued = audit_count (codes "student.invite_issued") db;
  invites_blocked = audit_count (codes "invite.role_conflict") db;
}
