-- ===== src/Manager.antt =====
-- app/services/plan_manager.py, class PlanManager: who may do what, and the operations on plans.
-- Students are in Students, requests in Requests, invites in Invites.
pub mod Access
pub mod Copies
pub mod Edits
pub mod Erasing
use planmaker.Common.{
  ℕ, zero, suc, ◌+◌, ◌-◌, Bool, true, false, not, ◌&&◌, ◌||◌, Option, none, some, List, [], ◌∷◌,
  ◌++◌, map, ltb, ◌==◌, if◌then◌else◌, select, any, is_some, length,
}
use planmaker.Common.Text.{Text, is_empty, text_eq}
use planmaker.Common.Result.{Result, access_denied, student_error}
use planmaker.Common.Settings.{Settings}
use planmaker.Calendar.{Date, Weekday, weekday_key, validate_range}
use planmaker.Domain.Activity.{Activity, activity_is_empty}
use planmaker.Domain.Day.{PlanDay, sort_slots}
use planmaker.Domain.Plan.{Assignment, WeeklyPlan, PlanStatus, draft, sent, post_init}
use planmaker.Domain
use planmaker.Database.{Db, Time, User, Role, admin, advisor, student, DayRow, FileRow, PlanRow}
use planmaker.Database.Action.{
  Action, pure, gets, lift, raise, or_raise, raise_if, modify, if_none, audit_log, ◌>>=◌, ◌>>◌,
}
use planmaker.Security.{is_admin, role_eq}
use planmaker.Users.{by_id, is_assigned}
use planmaker.Plans
use planmaker.Plans.{bump_version, older_than, set_plan, replace_assignments}
use planmaker.Storage.{remove_plan_files}

abbrev pub may_edit : User → PlanRow → Bool
may_edit actor p =
    role_eq actor.role admin || (role_eq actor.role advisor && (p.advisor_id == actor.id))

unfoldable pub ensure_can_edit_plan : User → PlanRow → Action (Unit {0})
ensure_can_edit_plan actor p = raise_if (not (may_edit actor p)) access_denied

abbrev pub may_view : User → PlanRow → Bool
may_view actor p = may_edit actor p || (role_eq actor.role student && (p.student_id == actor.id))

unfoldable pub ensure_can_view_plan : User → PlanRow → Action (Unit {0})
ensure_can_view_plan actor p = raise_if (not (may_view actor p)) access_denied

-- A suspended account is locked out of writing, unless it is an administrator's.
abbrev pub is_locked : Settings → User → Bool
is_locked cfg actor = not actor.is_active && not (is_admin cfg actor actor.telegram_id)

unfoldable pub ensure_active : Settings → User → Action (Unit {0})
ensure_active cfg actor = raise_if (is_locked cfg actor) access_denied

unfoldable pub ensure_owns_student : User → ℕ → Action User
ensure_owns_student by student_id = do
  found ← gets (by_id student_id)
  s ← or_raise found access_denied
  assigned ← gets (is_assigned by.id student_id)
  raise_if (not (role_eq by.role admin) && not assigned) access_denied
  pure s

unfoldable pub get_editable : Settings → User → ℕ → Action PlanRow
unfolding ensure_active ensure_can_edit_plan
get_editable cfg actor plan_id = do
  ensure_active cfg actor
  found ← gets (Plans.get plan_id)
  p ← or_raise found access_denied
  ensure_can_edit_plan actor p
  pure p

unfoldable pub get_viewable : User → ℕ → Action PlanRow
unfolding ensure_can_view_plan
get_viewable actor plan_id = do
  found ← gets (Plans.get plan_id)
  p ← or_raise found access_denied
  ensure_can_view_plan actor p
  pure p

-- `week_end or week_start + timedelta(days=6)`
abbrev pub end_or_week : Option Date → Date → Date
end_or_week none week_start = week_start + 6
end_or_week (some week_end) week_start = week_end

unfoldable pub create_plan : Settings → User → ℕ → Date → Option Date → Action PlanRow
create_plan cfg by student_id week_start week_end = do
  ensure_active cfg by
  s ← ensure_owns_student by student_id
  lift (validate_range cfg week_start (end_or_week week_end week_start) none)
  existing ← gets (Plans.find_by_week s.id week_start)
  if_none existing
      (do
        p ← Plans.create cfg s.id by.id week_start (end_or_week week_end week_start)
        audit_log "plan.created" (some by.id) (some p.id) (some s.id)
        pure p)
      pure

abbrev pub edited : User → PlanRow → Action (Unit {0})
edited actor p = audit_log "plan.edited" (some actor.id) (some p.id) (some p.student_id)

-- `None` for an activity that is empty but for its notes.
abbrev pub values_of : Option Activity → Option Activity
values_of none = none
values_of (some a) = if activity_is_empty a then none else some a

unfoldable pub set_slot : Settings → User → ℕ → Weekday → ℕ → Option Activity → Action (Unit {0})
set_slot cfg actor plan_id w slot activity = do
  p ← get_editable cfg actor plan_id
  bump_version p
  Plans.set_slot p.id w slot (values_of activity)
  edited actor p

unfoldable pub clear_day : Settings → User → ℕ → Weekday → Action (Unit {0})
clear_day cfg actor plan_id w = do
  p ← get_editable cfg actor plan_id
  bump_version p
  Plans.clear_day p.id w
  edited actor p

unfoldable pub set_assignments : Settings → User → ℕ → List Text → Action (Unit {0})
set_assignments cfg actor plan_id texts = do
  p ← get_editable cfg actor plan_id
  bump_version p
  replace_assignments p.id texts
  edited actor p

-- The caller passes the row that it holds; nothing is checked here.
unfoldable pub mark_sent : Time → User → PlanRow → Action (Unit {0})
mark_sent now actor p = do
  set_plan p.id (λ q. record q { status = sent; sent_at = some now })
  audit_log "plan.sent" (some actor.id) (some p.id) (some p.student_id)

unfoldable pub delete_plan : Settings → User → ℕ → Action ℕ
delete_plan cfg actor plan_id = do
  p ← get_editable cfg actor plan_id
  removed ← remove_plan_files cfg p
  Plans.delete p
  audit_log "plan.deleted" (some actor.id) (some plan_id) (some p.student_id)
  pure removed

-- The loop over the stale plans, and the files that it removed.
pub purge_plans : Settings → List PlanRow → Action ℕ
purge_plans cfg [] = pure 0
purge_plans cfg (p ∷ ps) = do
  removed ← remove_plan_files cfg p
  Plans.delete p
  more ← purge_plans cfg ps
  pure (removed + more)

-- `days` is the retention; 0 or less keeps everything. `today` is `today_local()`.
unfoldable pub purge_older_than : Settings → Date → ℕ → Action (ℕ × ℕ)
unfolding purge_plans
purge_older_than cfg today zero = pure (0, 0)
purge_older_than cfg today (suc n) = do
  stale ← gets (older_than (today - suc n))
  files ← purge_plans cfg stale
  if ltb 0 (length stale) then audit_log "plan.purged" none none none else pure tt
  pure (length stale, files)
