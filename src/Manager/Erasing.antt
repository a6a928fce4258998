-- ===== src/Manager/Erasing.antt =====
-- app/services/plan_manager.py: deleting and purging plans, and the disk.
use planmaker.Common.{ℕ, zero, suc, ◌≡◌, refl, List, [], ◌∷◌}
use planmaker.Common.Settings.{Settings}
use planmaker.Calendar.{Date}
use planmaker.Database.{Db, User, PlanRow}
use planmaker.Database.Keeps.{
  Keeps, keeps_rules, Keeps-modify, Keeps-audit_log, Keeps-bind, Keeps-gets, Keeps-pure, Keeps-if,
}
use planmaker.Plans
use planmaker.Storage.Removal.{outside_files, remove_plan_files-outside}
use planmaker.Manager.{
  get_editable, ensure_active, ensure_can_edit_plan, delete_plan, purge_plans, purge_older_than,
}

get_editable-outside :
    (cfg : Settings) (actor : User) (i : ℕ) → Keeps (outside_files cfg) (get_editable cfg actor i)
unfolding get_editable ensure_active ensure_can_edit_plan
get_editable-outside cfg actor i = search keeps_rules

pub delete-outside : (cfg : Settings) (p : PlanRow) → Keeps (outside_files cfg) (Plans.delete p)
unfolding Plans.delete
delete-outside cfg p = Keeps-modify _ (λ db. refl)

purge_plans-outside :
    (cfg : Settings) (ps : List PlanRow) → Keeps (outside_files cfg) (purge_plans cfg ps)
unfolding purge_plans
purge_plans-outside cfg [] = Keeps-pure _
purge_plans-outside cfg (p ∷ ps) = Keeps-bind _ _ (remove_plan_files-outside cfg p) (λ n.
    Keeps-bind _ _ (delete-outside cfg p)
      (λ _. Keeps-bind _ _ (purge_plans-outside cfg ps) (λ _. Keeps-pure _)))

delete_plan-Keeps :
    (cfg : Settings) (actor : User) (i : ℕ) → Keeps (outside_files cfg) (delete_plan cfg actor i)
unfolding delete_plan
delete_plan-Keeps cfg actor i = Keeps-bind _ _ (get_editable-outside cfg actor i) (λ p.
    Keeps-bind _ _ (remove_plan_files-outside cfg p) (λ n.
      Keeps-bind _ _ (delete-outside cfg p)
        (λ _. Keeps-bind _ _ (Keeps-audit_log _ _ _ _ (λ db rows. refl)) (λ _. Keeps-pure _))))

purge-Keeps :
    (cfg : Settings) (today : Date) (n : ℕ)
    → Keeps (outside_files cfg) (purge_older_than cfg today n)
unfolding purge_older_than
purge-Keeps cfg today zero = Keeps-pure _
purge-Keeps cfg today (suc n) = Keeps-bind _ _ (Keeps-gets _) (λ stale.
    Keeps-bind _ _ (purge_plans-outside cfg stale) (λ files.
      Keeps-bind _ _ (Keeps-if _ _ _ (Keeps-audit_log _ _ _ _ (λ db rows. refl)) (Keeps-pure _))
        (λ _. Keeps-pure _)))

-- Whoever deletes whichever plan, and whatever the retention purges, no file outside the storage
-- root is removed: the paths in the rows do not matter.
pub erasing_stays_inside :
    (cfg : Settings) (actor : User) (i n : ℕ) (today : Date) (db : Db)
    → (outside_files cfg (delete_plan cfg actor i db).1 ≡ outside_files cfg db)
      × (outside_files cfg (purge_older_than cfg today n db).1 ≡ outside_files cfg db)
erasing_stays_inside cfg actor i n today db =
    ((delete_plan-Keeps cfg actor i).at db, (purge-Keeps cfg today n).at db)
