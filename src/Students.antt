-- ===== src/Students.antt =====
-- app/services/plan_manager.py, class PlanManager: what advisors do with their students.
--
-- The parameter `students_of` is the answer of the database to the search of
-- `UserRepository.students_of`: the first `limit` students of the advisor whose name or username
-- matches the text (ILIKE), by name.
pub mod Owners
use planmaker.Common.{
  ℕ, ◌+◌, Bool, true, false, not, ◌&&◌, ◌||◌, Option, none, some, List, ◌==◌, ltb, length, any,
  is_some, if◌then◌else◌,
}
use planmaker.Common.Text.{Text, text_eq}
use planmaker.Common.Result.{Exception, Result, ok, err, access_denied, student_error, value_error}
use planmaker.Common.Settings.{Settings}
use planmaker.Database.{Db, Time, User, Role, admin, advisor}
use planmaker.Database.Action.{Action, pure, gets, raise_if, audit_log, ◌>>=◌, ◌>>◌}
use planmaker.Security.{role_eq}
use planmaker.Users
use planmaker.Users.{
  by_telegram_id, id_eq, or_none, create_student_for_advisor, rotate_invite_token,
  attach_telegram_id, update_student, unlink_student,
}
use planmaker.Requests.{clean_name}
use planmaker.Manager.{ensure_active, ensure_owns_student}

-- Taken by somebody, for an id that is given.
abbrev pub is_taken : Option ℕ → Db → Bool
is_taken none db = false
is_taken (some t) db = is_some (by_telegram_id t db)

abbrev pub bad_length : Text → Bool
bad_length name = ltb (length name) 2 || ltb 80 (length name)

abbrev pub advises : User → Bool
advises u = role_eq u.role advisor || role_eq u.role admin

-- `token` is the answer of `secrets.token_urlsafe`.
unfoldable pub create_student :
    (ℕ → Text → ℕ → Db → List User)
    → Settings
    → Time
    → Text
    → User
    → Text
    → Option Text
    → Option ℕ
    → Action User
create_student students_of cfg now token by full_name grade telegram_id = do
  raise_if (not (advises by)) access_denied
  ensure_active cfg by
  raise_if (bad_length (clean_name full_name)) student_error
  existing ← gets (students_of by.id (clean_name full_name) 1)
  raise_if (any (λ (s : User). text_eq s.full_name (clean_name full_name)) existing) student_error
  taken ← gets (is_taken telegram_id)
  raise_if taken student_error
  s ← create_student_for_advisor now token by.id (clean_name full_name) (or_none grade) telegram_id
  audit_log "student.created" (some by.id) none (some s.id)
  pure s

unfoldable pub get_student : User → ℕ → Action User
get_student by student_id = ensure_owns_student by student_id

unfoldable pub new_invite : Time → Text → User → ℕ → Action Text
new_invite now token by student_id = do
  s ← ensure_owns_student by student_id
  raise_if (is_some s.telegram_id) student_error
  issued ← rotate_invite_token now token s
  audit_log "student.invite_issued" (some by.id) none (some s.id)
  pure issued

unfoldable pub revoke_invite : User → ℕ → Action (Unit {0})
revoke_invite by student_id = do
  s ← ensure_owns_student by student_id
  Users.revoke_invite s
  audit_log "student.invite_revoked" (some by.id) none (some s.id)

-- `except ValueError: raise StudentError`
abbrev pub renamed : Exception → Exception
renamed value_error = student_error
renamed e = e

abbrev pub renamed_result : {A : Type 0} → Result A → Result A
renamed_result (ok a) = ok a
renamed_result (err e) = err (renamed e)

abbrev pub with_student_error : {A : Type 0} → Action A → Action A
with_student_error m db = let (r, db') = m db in (renamed_result r, db')

abbrev pub attach : User → User → ℕ → Action User
attach by s telegram_id = do
  with_student_error (attach_telegram_id s telegram_id)
  audit_log "student.linked_manually" (some by.id) none (some s.id)
  pure s

unfoldable pub link_telegram_id : User → ℕ → ℕ → Action User
link_telegram_id by student_id telegram_id = do
  s ← ensure_owns_student by student_id
  if id_eq s.telegram_id telegram_id then pure s else attach by s telegram_id

unfoldable pub edit_student :
    (ℕ → Text → ℕ → Db → List User) → User → ℕ → Text → Option Text → Action User
edit_student students_of by student_id full_name grade = do
  s ← ensure_owns_student by student_id
  raise_if (bad_length (clean_name full_name)) student_error
  found ← gets (students_of by.id (clean_name full_name) 8)
  raise_if
      (any (λ (u : User). text_eq u.full_name (clean_name full_name) && not (u.id == s.id)) found)
      student_error
  update_student s (clean_name full_name) grade
  audit_log "student.edited" (some by.id) none (some s.id)
  pure s

unfoldable pub detach_student : User → ℕ → Action (Unit {0})
detach_student by student_id = do
  s ← ensure_owns_student by student_id
  unlink_student by.id s.id
  audit_log "student.detached" (some by.id) none (some s.id)
