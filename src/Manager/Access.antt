-- ===== src/Manager/Access.antt =====
-- app/services/plan_manager.py: the guard at the head of every editing operation.
use planmaker.Common.{
  ℕ, ◌≡◌, Bool, false, not, ◌&&◌, Option, none, some, List, arith, Option-cases, inl, inr,
}
use planmaker.Common.Text.{Text}
use planmaker.Common.Result.{err, access_denied}
use planmaker.Common.Settings.{Settings}
use planmaker.Calendar.{Weekday}
use planmaker.Domain.Activity.{Activity}
use planmaker.Database.{Db, User, PlanRow}
use planmaker.Database.Action.{◌>>=◌}
use planmaker.Plans
use planmaker.Manager
use planmaker.Manager.{
  is_locked, may_edit, ensure_active, ensure_can_edit_plan, get_editable, set_assignments,
  delete_plan,
}
use planmaker.Manager.Copies.{copy_day, copy_previous_week}

abbrev may_edit_found : User → Option PlanRow → Bool
may_edit_found actor none = false
may_edit_found actor (some p) = may_edit actor p

-- The actor is not locked out, the plan exists, and it is the actor's own or the actor is an
-- administrator.
abbrev pub may_write : Settings → User → ℕ → Db → Bool
may_write cfg actor plan_id db =
    not (is_locked cfg actor) && may_edit_found actor (Plans.get plan_id db)

get_editable-refused :
    (cfg : Settings) (actor : User) (i : ℕ) (db : Db)
    → may_write cfg actor i db ≡ false
    → get_editable cfg actor i db ≡ (err access_denied, db)
unfolding get_editable ensure_active ensure_can_edit_plan ◌>>=◌
get_editable-refused cfg actor i db h = elim (Option-cases (Plans.get i db)) [
  | inl missing ↦ ground arith
  | inr (p, found) ↦ ground arith
]

-- An actor who may not write a plan gets AccessDenied from each of the seven operations that edit
-- it, and nothing at all is changed: no row, no version, no file on the disk, no audit entry.
pub edits_need_access :
    (cfg : Settings) (actor : User) (i slot : ℕ) (w v : Weekday) (a : Option Activity)
    (texts : List Text) (db : Db)
    → may_write cfg actor i db ≡ false
    → (get_editable cfg actor i db ≡ (err access_denied, db))
      × (Manager.set_slot cfg actor i w slot a db ≡ (err access_denied, db))
      × (Manager.clear_day cfg actor i w db ≡ (err access_denied, db))
      × (copy_day cfg actor i w v db ≡ (err access_denied, db))
      × (copy_previous_week cfg actor i db ≡ (err access_denied, db))
      × (set_assignments cfg actor i texts db ≡ (err access_denied, db))
      × (delete_plan cfg actor i db ≡ (err access_denied, db))
unfolding Manager.set_slot Manager.clear_day copy_day copy_previous_week set_assignments delete_plan
    ◌>>=◌
edits_need_access cfg actor i slot w v a texts db h =
    let refused = get_editable-refused cfg actor i db h in
    (refused, rw refused, rw refused, rw refused, rw refused, rw refused, rw refused)
