-- ===== src/Examples/Editing.antt =====
-- Editing, erasing and deleting on the concrete tables.
use planmaker.Common.{ℕ, ◌≡◌, refl, false, none, some, List, [], ◌∷◌, ◌==◌, length}
use planmaker.Common.Text.{Text, codes}
use planmaker.Common.Result.{ok, err, access_denied}
use planmaker.Calendar.{Weekday, weekday_eq, monday, friday, index_of}
use planmaker.Database.{User, PlanRow, advisor}
use planmaker.Database.Action.{◌>>=◌, audit_log}
use planmaker.Plans
use planmaker.Plans.{get, day_of}
use planmaker.Plans.Slots.{in_slot, cells}
use planmaker.Storage.{remove_files, remove_paths, files_of_plans}
use planmaker.Storage.Removal.{outside_files}
use planmaker.Manager
use planmaker.Manager.{get_editable, set_assignments, delete_plan, purge_older_than}
use planmaker.Manager.Access.{may_write, edits_need_access}
use planmaker.Manager.Copies.{copy_day, copy_previous_week}
use planmaker.Manager.Edits.{Editable, IsRenewed, shown, set_slot_lem, clear_day_lem}
use planmaker.Manager.Erasing.{erasing_stays_inside}
use planmaker.Deletion.{
  DeletionReport, detach, delete_advisor, delete_student, plans_of_student, student_in_scope,
  delete_plans, drop_student_links, delete_user,
}
use planmaker.Deletion.Advisors.{student_accounts, IsKeyed, delete_advisor-student_accounts}
use planmaker.Deletion.Students.{IsGone, delete_student_lem}
use planmaker.Users.{by_id}
use planmaker.Security.{is_admin}
use planmaker.Examples.{cfg, math, boss, coach, account, monday_row, plan, tables}

editable : Editable cfg coach 5 tables plan
unfolding get is_admin
editable = record { not_locked = refl; found = refl; allowed = refl }

monday_found : day_of monday plan ≡ some monday_row
unfolding index_of
monday_found = refl

set_slot_lem_example :
    let (r, db') = Manager.set_slot cfg coach 5 monday 0 (some math) tables in
    (r ≡ ok tt)
    × ((q : PlanRow) × (get 5 db' ≡ some q)
        × IsRenewed plan.status plan q
        × (in_slot 0 (cells monday q) ≡ shown 0 (some math))
        × ((k : ℕ) → 0 == k ≡ false → in_slot k (cells monday q) ≡ in_slot k (cells monday plan))
        × ((v : Weekday) → weekday_eq monday v ≡ false → cells v q ≡ cells v plan))
    × ((j : ℕ) → 5 == j ≡ false → get j db' ≡ get j tables)
set_slot_lem_example =
    set_slot_lem cfg coach 5 tables plan editable monday 0 (some math) monday_row monday_found

clear_day_lem_example :
    let (r, db') = Manager.clear_day cfg coach 5 monday tables in
    (r ≡ ok tt)
    × ((q : PlanRow) × (get 5 db' ≡ some q)
        × IsRenewed plan.status plan q
        × (cells monday q ≡ [])
        × ((v : Weekday) → weekday_eq monday v ≡ false → cells v q ≡ cells v plan))
    × ((j : ℕ) → 5 == j ≡ false → get j db' ≡ get j tables)
clear_day_lem_example =
    clear_day_lem cfg coach 5 tables plan editable monday monday_row monday_found

-- Another advisor than the plan's.
abbrev stranger : User
stranger = account 9 none advisor none

no_write : may_write cfg stranger 5 tables ≡ false
unfolding get is_admin
no_write = refl

edits_need_access_example :
    (get_editable cfg stranger 5 tables ≡ (err access_denied, tables))
    × (Manager.set_slot cfg stranger 5 monday 0 (some math) tables ≡ (err access_denied, tables))
    × (Manager.clear_day cfg stranger 5 monday tables ≡ (err access_denied, tables))
    × (copy_day cfg stranger 5 monday friday tables ≡ (err access_denied, tables))
    × (copy_previous_week cfg stranger 5 tables ≡ (err access_denied, tables))
    × (set_assignments cfg stranger 5 [] tables ≡ (err access_denied, tables))
    × (delete_plan cfg stranger 5 tables ≡ (err access_denied, tables))
edits_need_access_example =
    edits_need_access cfg stranger 5 0 monday friday (some math) [] tables no_write

erasing_stays_inside_example :
    (outside_files cfg (delete_plan cfg coach 5 tables).1 ≡ outside_files cfg tables)
    × (outside_files cfg (purge_older_than cfg 100 30 tables).1 ≡ outside_files cfg tables)
erasing_stays_inside_example = erasing_stays_inside cfg coach 5 30 100 tables

abbrev two_paths : List Text
two_paths = codes "/data/a.png" ∷ codes "/etc/passwd" ∷ []

abbrev keyed : IsKeyed tables.users
keyed = ((refl, (refl, tt)), ((refl, tt), (tt, tt)))

delete_advisor-student_accounts_example :
    student_accounts (delete_advisor cfg boss 2 detach tables).1.users
    ≡ student_accounts tables.users
delete_advisor-student_accounts_example =
    delete_advisor-student_accounts cfg boss 2 detach tables keyed

-- What the administrator's deletion of the student reports.
abbrev report : DeletionReport
report = record {
  plans = 1;
  drafts = 0;
  versions = 0;
  files = 1;
  links = 1;
  students = 0;
  transferred = 0;
  detached = 0;
}

report-ok : (delete_student cfg boss 3 tables).0 ≡ ok report
unfolding delete_student ◌>>=◌ student_in_scope is_admin by_id delete_plans plans_of_student
    Plans.delete drop_student_links delete_user remove_paths audit_log remove_files files_of_plans
report-ok = refl

delete_student_lem_example :
    let db' = (delete_student cfg boss 3 tables).1 in
    IsGone 3 db'
    × (outside_files cfg db' ≡ outside_files cfg tables)
    × (1 ≡ length (plans_of_student 3 tables))
delete_student_lem_example = delete_student_lem cfg boss 3 tables report report-ok
