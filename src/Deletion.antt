-- ===== src/Deletion.antt =====
-- app/services/deletion.py, class DeletionService: deleting students, advisors and plans, moving a
-- student, detaching a Telegram account. Rows that refer to a deleted account follow the ondelete
-- rules of app/db/models.py. A flush that fails in the database is not modelled, and with it the
-- rollback; the report is kept, but for the name.
pub mod Students
pub mod Advisors
use planmaker.Common.{
  ℕ, ◌+◌, Bool, true, false, not, ◌&&◌, ◌||◌, Option, none, some, List, [], ◌∷◌, ◌++◌, map, ◌==◌,
  select, length, ltb, if◌then◌else◌,
}
use planmaker.Common.Text.{Text}
use planmaker.Common.Result.{access_denied, student_error}
use planmaker.Common.Settings.{Settings}
use planmaker.Domain.Plan.{PlanStatus, draft}
use planmaker.Database.{
  Db, User, Role, admin, advisor, student, Link, AccessRequest, PlanRow, AuditRow,
}
use planmaker.Database.Action.{
  Action, pure, gets, raise, or_raise, raise_if, modify, if_none, audit_log, ◌>>=◌, ◌>>◌,
}
use planmaker.Security.{is_admin, role_eq}
use planmaker.Users.{by_id, set_user, without_invite, is_link, id_eq}
use planmaker.Plans
use planmaker.Storage.{files_of_plans, remove_paths}
use planmaker.Manager.{ensure_active, ensure_owns_student, ensure_can_edit_plan}
use planmaker.Manager

pub record DeletionReport : Type 0 where
  pub plans : ℕ
  pub drafts : ℕ
  pub versions : ℕ
  pub files : ℕ
  pub links : ℕ
  pub students : ℕ
  pub transferred : ℕ
  pub detached : ℕ

abbrev pub empty_report : DeletionReport
empty_report = record {
  plans = 0;
  drafts = 0;
  versions = 0;
  files = 0;
  links = 0;
  students = 0;
  transferred = 0;
  detached = 0;
}

-- A reference that ON DELETE SET NULL clears.
abbrev pub unset : ℕ → Option ℕ → Option ℕ
unset i o = if id_eq o i then none else o

-- `session.delete(user)` and flush: the row, and what the foreign keys do.
unfoldable pub delete_user : ℕ → Action (Unit {0})
delete_user i = modify λ db. record db {
  users =
      map (λ (u : User). record u { created_by_id = unset i u.created_by_id })
        (select (λ (u : User). not (u.id == i)) db.users);
  links = select (λ (l : Link). not ((l.advisor_id == i) || (l.student_id == i))) db.links;
  plans = select (λ (p : PlanRow). not ((p.student_id == i) || (p.advisor_id == i))) db.plans;
  requests =
      map (λ (r : AccessRequest). record r { handled_by_id = unset i r.handled_by_id }) db.requests;
  audit = map (λ (a : AuditRow). record a { actor_id = unset i a.actor_id }) db.audit;
}

abbrev pub is_draft : PlanStatus → Bool
is_draft draft = true
is_draft _ = false

abbrev pub drafts_of : List PlanRow → ℕ
drafts_of ps = length (select (λ (p : PlanRow). is_draft p.status) ps)

abbrev pub versions_of : List PlanRow → ℕ
versions_of [] = 0
versions_of (p ∷ ps) = length p.files + versions_of ps

-- `for plan in plans: await self.s.delete(plan)`
unfoldable pub delete_plans : List PlanRow → Action (Unit {0})
delete_plans [] = pure tt
delete_plans (p ∷ ps) = do Plans.delete p; delete_plans ps

unfoldable pub plans_of_student : ℕ → Db → List PlanRow
plans_of_student i db = select (λ p. p.student_id == i) db.plans

unfoldable pub plans_of_advisor : ℕ → Db → List PlanRow
plans_of_advisor i db = select (λ p. p.advisor_id == i) db.plans

abbrev pub links_of_student : ℕ → Db → List Link
links_of_student i db = select (λ (l : Link). l.student_id == i) db.links

abbrev pub links_of_advisor : ℕ → Db → List Link
links_of_advisor i db = select (λ (l : Link). l.advisor_id == i) db.links

unfoldable pub drop_student_links : ℕ → Action (Unit {0})
drop_student_links i =
    modify λ db. record db { links = select (λ (l : Link). not (l.student_id == i)) db.links }

abbrev pub any_student : ℕ → Action User
any_student student_id = do
  found ← gets (by_id student_id)
  s ← or_raise found student_error
  raise_if (not (role_eq s.role student)) student_error
  pure s

abbrev pub own_student : Settings → User → ℕ → Action User
own_student cfg actor student_id = do ensure_active cfg actor; ensure_owns_student actor student_id

-- Administrators reach every student, advisors their own only.
unfoldable pub student_in_scope : Settings → User → ℕ → Action User
student_in_scope cfg actor student_id =
    if is_admin cfg actor actor.telegram_id
    then any_student student_id
    else own_student cfg actor student_id

unfoldable pub delete_student : Settings → User → ℕ → Action DeletionReport
delete_student cfg actor student_id = do
  s ← student_in_scope cfg actor student_id
  raise_if (s.id == actor.id) student_error
  plans ← gets (plans_of_student s.id)
  delete_plans plans
  links ← gets (links_of_student s.id)
  drop_student_links s.id
  set_user s.id without_invite
  delete_user s.id
  removed ← remove_paths cfg (files_of_plans plans [])
  audit_log "student.deleted" (some actor.id) none (some student_id)
  pure (record empty_report {
    plans = length plans;
    drafts = drafts_of plans;
    versions = versions_of plans;
    links = length links;
    files = removed;
  })

abbrev pub can_advise : User → Bool
can_advise u = role_eq u.role advisor || role_eq u.role admin

unfoldable pub advisor_target : Settings → User → ℕ → Action User
advisor_target cfg actor advisor_id = do
  raise_if (not (is_admin cfg actor actor.telegram_id)) access_denied
  found ← gets (by_id advisor_id)
  a ← or_raise found student_error
  raise_if (not (can_advise a)) student_error
  raise_if (a.id == actor.id) student_error
  raise_if (is_admin cfg a a.telegram_id) student_error
  pure a

-- The advisor who is to take over the students.
unfoldable pub transfer_target : User → Option ℕ → Action User
transfer_target a none = raise student_error
transfer_target a (some i) = do
  raise_if (i == 0) student_error
  found ← gets (by_id i)
  target ← or_raise found student_error
  raise_if (not (can_advise target)) student_error
  raise_if (target.id == a.id) student_error
  pure target

-- One link goes over to the target, unless the target has it already.
abbrev pub move_link : ℕ → Link → List Link → List Link
move_link target l links =
    let kept = select (λ x. not (is_link l.advisor_id l.student_id x)) links in
    if ltb 0 (length (select (is_link target l.student_id) links))
    then kept
    else kept ++ record { advisor_id = target; student_id = l.student_id } ∷ []

abbrev pub move_links : ℕ → List Link → List Link → List Link
move_links target [] links = links
move_links target (l ∷ ls) links = move_links target ls (move_link target l links)

-- Plans follow their students: every plan of the old advisor.
abbrev pub handed_over : ℕ → ℕ → PlanRow → PlanRow
handed_over old target p = if p.advisor_id == old then record p { advisor_id = target } else p

unfoldable pub transfer : ℕ → ℕ → List Link → Action (Unit {0})
transfer old target ls = modify λ db. record db {
  links = move_links target ls db.links;
  plans = map (handed_over old target) db.plans;
}

unfoldable pub drop_advisor_links : ℕ → Action (Unit {0})
drop_advisor_links i =
    modify λ db. record db { links = select (λ (l : Link). not (l.advisor_id == i)) db.links }

pub data Strategy : Type 0 where
  transfer_to : Option ℕ → Strategy
  detach : Strategy

-- Behind the checks: `target` is there for a transfer.
unfoldable pub delete_advisor : Settings → User → ℕ → Strategy → Action DeletionReport
delete_advisor cfg actor advisor_id (transfer_to target_id) = do
  a ← advisor_target cfg actor advisor_id
  target ← transfer_target a target_id
  links ← gets (links_of_advisor a.id)
  transfer a.id target.id links
  delete_user a.id
  audit_log "advisor.deleted" (some actor.id) none none
  pure (record empty_report { students = length links; transferred = length links })
delete_advisor cfg actor advisor_id detach = do
  a ← advisor_target cfg actor advisor_id
  links ← gets (links_of_advisor a.id)
  plans ← gets (plans_of_advisor a.id)
  delete_plans plans
  drop_advisor_links a.id
  delete_user a.id
  removed ← remove_paths cfg (files_of_plans plans [])
  audit_log "advisor.deleted" (some actor.id) none none
  pure (record empty_report {
    students = length links;
    plans = length plans;
    drafts = drafts_of plans;
    files = removed;
    detached = length links;
  })

-- Two checks of the same right: the administrator by the settings passes the first one alone.
unfoldable pub delete_plan : Settings → User → ℕ → Action DeletionReport
delete_plan cfg actor plan_id = do
  found ← gets (Plans.get plan_id)
  p ← or_raise found student_error
  if is_admin cfg actor actor.telegram_id then pure tt else ensure_can_edit_plan actor p
  removed ← Manager.delete_plan cfg actor plan_id
  pure (record empty_report { plans = 1; versions = length p.files; files = removed })

unfoldable pub transfer_student : Settings → User → ℕ → ℕ → Action (User × User)
transfer_student cfg actor student_id new_advisor_id = do
  raise_if (not (is_admin cfg actor actor.telegram_id)) access_denied
  found ← gets (by_id student_id)
  found_target ← gets (by_id new_advisor_id)
  s ← or_raise found student_error
  raise_if (not (role_eq s.role student)) student_error
  target ← or_raise found_target student_error
  raise_if (not (can_advise target)) student_error
  drop_student_links s.id
  modify λ db. record db {
    links = db.links ++ record { advisor_id = target.id; student_id = s.id } ∷ [];
  }
  audit_log "student.advisor_changed" (some actor.id) none (some s.id)
  pure (s, target)

unfoldable pub unlink_telegram : Settings → User → ℕ → Action (Unit {0})
unlink_telegram cfg actor student_id = do
  raise_if (not (is_admin cfg actor actor.telegram_id)) access_denied
  s ← any_student student_id
  set_user s.id (λ u. record u { telegram_id = none; username = none })
  audit_log "telegram.unlinked" (some actor.id) none (some s.id)
