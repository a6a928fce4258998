-- ===== src/Students/Owners.antt =====
-- app/services/plan_manager.py: whose students an advisor reaches.
use planmaker.Common.{
  ℕ, ◌≡◌, Bool, false, ◌&&◌, ◌||◌, Option, List, arith, Option-cases, inl, inr, is_some,
}
use planmaker.Common.Text.{Text}
use planmaker.Common.Result.{err, access_denied}
use planmaker.Database.{Db, Time, User, admin}
use planmaker.Database.Action.{◌>>=◌}
use planmaker.Security.{role_eq}
use planmaker.Users.{by_id, is_assigned}
use planmaker.Manager.{ensure_owns_student}
use planmaker.Students
use planmaker.Students.{get_student, new_invite, link_telegram_id, edit_student, detach_student}

-- The account exists, and it is an advisee of the caller's or the caller is an administrator.
abbrev pub owns : User → ℕ → Db → Bool
owns by i db = is_some (by_id i db) && (role_eq by.role admin || is_assigned by.id i db)

not_owner :
    (by : User) (i : ℕ) (db : Db)
    → owns by i db ≡ false
    → ensure_owns_student by i db ≡ (err access_denied, db)
unfolding ensure_owns_student ◌>>=◌
not_owner by i db h = elim (Option-cases (by_id i db)) [
  | inl missing ↦ ground arith
  | inr (s, found) ↦ ground arith
]

-- An advisor gets AccessDenied for a student that is not the advisor's own, from each of the six
-- operations on a student, and nothing is changed.
pub students_need_owner :
    (students_of : ℕ → Text → ℕ → Db → List User) (now : Time) (token name : Text)
    (grade : Option Text) (by : User) (i t : ℕ) (db : Db)
    → owns by i db ≡ false
    → (get_student by i db ≡ (err access_denied, db))
      × (new_invite now token by i db ≡ (err access_denied, db))
      × (Students.revoke_invite by i db ≡ (err access_denied, db))
      × (link_telegram_id by i t db ≡ (err access_denied, db))
      × (edit_student students_of by i name grade db ≡ (err access_denied, db))
      × (detach_student by i db ≡ (err access_denied, db))
unfolding get_student new_invite Students.revoke_invite link_telegram_id edit_student detach_student
    ◌>>=◌
students_need_owner students_of now token name grade by i t db h =
    let refused = not_owner by i db h in
    (refused, rw refused, rw refused, rw refused, rw refused, rw refused)
