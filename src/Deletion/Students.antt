-- ===== src/Deletion/Students.antt =====
-- app/services/deletion.py: deleting a student.
use planmaker.Common.{
  ℕ, ◌≡◌, refl, ap, ◌∙◌, sym, Bool, true, false, not, ◌&&◌, ◌||◌, none, some, List, [], ◌∷◌, map,
  ◌⊎◌, ◌==◌, select, find, length, arith, Bool-cases, Option-cases, inl, inr,
}
use planmaker.Common.Result.{Exception, ok, err, ok-injective, access_denied, student_error}
use planmaker.Common.Settings.{Settings}
use planmaker.Database.{Db, User, Link, PlanRow, student, admin}
use planmaker.Database.Action.{modify, audit_log, ◌>>=◌}
use planmaker.Security.{is_admin, role_eq}
use planmaker.Users.{update_user, without_invite, by_id, is_assigned}
use planmaker.Plans
use planmaker.Storage.{remove_paths, files_of_plans, remove_files}
use planmaker.Storage.Removal.{outside_files, remove_files_lem}
use planmaker.Manager.{ensure_active, ensure_owns_student}
use planmaker.Deletion.{
  delete_user, delete_plans, unset, plans_of_student, links_of_student, drop_student_links,
  student_in_scope, delete_student, DeletionReport, empty_report, drafts_of, versions_of,
}

pub number_of : (i : ℕ) (us : List User) (a : User) → find (λ u. u.id == i) us ≡ some a → a.id ≡ i
number_of i [] a h = cc
number_of i (u ∷ us) a h = ground (arith, number_of i us a)

-- Deleting asks for the student; the answer is the row of that number, or a refusal.
student_in_scope-cases :
    (cfg : Settings) (actor : User) (i : ℕ) (db : Db)
    → ((s : User) × (student_in_scope cfg actor i db ≡ (ok s, db)) × (s.id ≡ i))
      ⊎ ((e : Exception) × (student_in_scope cfg actor i db ≡ (err e, db)))
unfolding student_in_scope ensure_active ensure_owns_student by_id ◌>>=◌
student_in_scope-cases cfg actor i db = elim (Bool-cases (is_admin cfg actor actor.telegram_id)) [
  | inl by_admin ↦ elim (Option-cases (by_id i db)) [
    | inl missing ↦ rw (by_admin, missing) (inr (student_error, refl))
    | inr (s, found) ↦ elim (Bool-cases (role_eq s.role student)) [
      | inl right ↦ rw (by_admin, found, right) (inl (s, refl, number_of i db.users s found))
      | inr other ↦ rw (by_admin, found, other) (inr (student_error, refl))
    ]
  ]
  | inr by_advisor ↦ elim (Bool-cases actor.is_active) [
    | inr locked ↦ rw (by_advisor, locked) (inr (access_denied, refl))
    | inl active ↦ elim (Option-cases (by_id i db)) [
      | inl missing ↦ rw (by_advisor, active, missing) (inr (access_denied, refl))
      | inr (s, found) ↦
          elim (Bool-cases (not (role_eq actor.role admin) && not (is_assigned actor.id i db))) [
            | inl foreign ↦ rw (by_advisor, active, found, foreign) (inr (access_denied, refl))
            | inr own ↦
                rw (by_advisor, active, found, own) (inl (s, refl, number_of i db.users s found))
          ]
    ]
  ]
]

pub delete_plans-runs :
    (ps : List PlanRow) (db : Db)
    → (kept : List PlanRow) × (delete_plans ps db ≡ (ok tt, record db { plans = kept }))
unfolding delete_plans Plans.delete ◌>>=◌
delete_plans-runs [] db = (db.plans, refl)
delete_plans-runs (p ∷ ps) db =
    delete_plans-runs ps
      (record db { plans = select (λ (q : PlanRow). not (q.id == p.id)) db.plans })

module _ {ℓ} {A : Type ℓ} where
  -- What a filter dropped, no narrower query finds.
  select-dropped :
      (p q : A → Bool) (xs : List A)
      → ((x : A) → p x ≡ true → q x ≡ true)
      → select p (select (λ x. not (q x)) xs) ≡ []
  select-dropped p q [] h = refl
  select-dropped p q (x ∷ xs) h = elim (Bool-cases (q x)) [
    | inl dropped ↦ rw dropped (select-dropped p q xs h)
    | inr kept ↦
        let unmatched : p x ≡ false = not_both x kept in
        rw (kept, unmatched) (select-dropped p q xs h)
  ]
    where
      not_both : (x : A) → q x ≡ false → p x ≡ false
      not_both x kept = elim (Bool-cases (p x)) [
        | inl matched ↦ absurd (let clash = h x matched in cc)
        | inr unmatched ↦ unmatched
      ]

no_account :
    (i : ℕ) (us : List User)
    → find
        (λ u. u.id == i)
        (map
          (λ (u : User). record u { created_by_id = unset i u.created_by_id })
          (select (λ (u : User). not (u.id == i)) us))
      ≡ none
no_account i [] = refl
no_account i (u ∷ us) = elim (Bool-cases (u.id == i)) [
  | inl here ↦ rw here (no_account i us)
  | inr other ↦ rw (other, other) (no_account i us)
]

or_true : (b : Bool) → (b || true) ≡ true
or_true true = refl
or_true false = refl

-- Nothing refers to the student any more.
pub record IsGone (i : ℕ) (db : Db) : Type 0 where
  pub no_user : by_id i db ≡ none
  pub no_plans : plans_of_student i db ≡ []
  pub no_links : links_of_student i db ≡ []

delete_user-IsGone : (i : ℕ) (db : Db) → IsGone i (delete_user i db).1
unfolding delete_user modify by_id plans_of_student
delete_user-IsGone i db = record {
  no_user = no_account i db.users;
  no_plans =
      select-dropped (λ (p : PlanRow). p.student_id == i)
        (λ p. (p.student_id == i) || (p.advisor_id == i)) db.plans (λ p m. rw m refl);
  no_links =
      select-dropped (λ (l : Link). l.student_id == i)
        (λ l. (l.advisor_id == i) || (l.student_id == i)) db.links (λ l m. rw m (or_true _));
}

IsGone-same :
    (i k : ℕ) (db db' : Db)
    → k ≡ i
    → db'.users ≡ db.users
    → db'.plans ≡ db.plans
    → db'.links ≡ db.links
    → IsGone k db
    → IsGone i db'
unfolding by_id plans_of_student
IsGone-same i k db db' number us ps ls g = record {
  no_user =
      ap (λ us. find (λ (u : User). u.id == i) us) us
      ∙ ap (λ n. find (λ (u : User). u.id == n) db.users) (sym number)
      ∙ g.no_user;
  no_plans =
      ap (λ ps. select (λ (p : PlanRow). p.student_id == i) ps) ps
      ∙ ap (λ n. select (λ (p : PlanRow). p.student_id == n) db.plans) (sym number)
      ∙ g.no_plans;
  no_links =
      ap (λ ls. select (λ (l : Link). l.student_id == i) ls) ls
      ∙ ap (λ n. select (λ (l : Link). l.student_id == n) db.links) (sym number)
      ∙ g.no_links;
}

-- Behind a deletion that returns there is no account of that number, no plan of it and no link to
-- it, and the only files that went were inside the storage root.
pub delete_student_lem :
    (cfg : Settings) (actor : User) (i : ℕ) (db : Db) (r : DeletionReport)
    → (delete_student cfg actor i db).0 ≡ ok r
    → let db' = (delete_student cfg actor i db).1 in
      IsGone i db'
      × (outside_files cfg db' ≡ outside_files cfg db)
      × (r.plans ≡ length (plans_of_student i db))
unfolding delete_student plans_of_student drop_student_links delete_user remove_paths audit_log
    by_id ◌>>=◌
delete_student_lem cfg actor i db r h = elim (student_in_scope-cases cfg actor i db) [
  | inr (e, refused) ↦ absurd (let e2 = rw refused at h in cc)
  | inl (s, scope, number) ↦ elim (Bool-cases (s.id == actor.id)) [
    | inl self ↦ absurd (let e2 = rw (scope, self) at h in cc)
    | inr other ↦
        let (kept, runs) = delete_plans-runs (plans_of_student s.id db) db in
        let result = rw (scope, other, runs) at h in
        let before = record db {
          plans = kept;
          links = select (λ (l : Link). not (l.student_id == s.id)) db.links;
          users = update_user s.id without_invite db.users;
        } in
        (
          IsGone-same i s.id (delete_user s.id before).1 (delete_student cfg actor i db).1 number
              (rw (scope, other, runs) refl) (rw (scope, other, runs) refl)
              (rw (scope, other, runs) refl) (delete_user-IsGone s.id before),
          rw (scope, other, runs)
              (remove_files_lem cfg (files_of_plans (plans_of_student s.id db) []) db.disk).0,
          sym (ap (λ (x : DeletionReport). x.plans) (ok-injective result))
              ∙ ap (λ k. length (plans_of_student k db)) number,
        )
  ]
]

student_in_scope-ok :
    (cfg : Settings) (actor s : User) (i : ℕ) (db : Db)
    → is_admin cfg actor actor.telegram_id ≡ true
    → by_id i db ≡ some s
    → role_eq s.role student ≡ true
    → student_in_scope cfg actor i db ≡ (ok s, db)
unfolding student_in_scope ◌>>=◌
student_in_scope-ok cfg actor s i db by_admin found right = rw (by_admin, found, right) refl

-- An administrator who deletes the account of a student, not the administrator's own, gets a
-- report: the deletion is not refused and does not stop half-way.
pub delete_student-returns :
    (cfg : Settings) (actor s : User) (i : ℕ) (db : Db)
    → is_admin cfg actor actor.telegram_id ≡ true
    → by_id i db ≡ some s
    → role_eq s.role student ≡ true
    → s.id == actor.id ≡ false
    → (r : DeletionReport) × ((delete_student cfg actor i db).0 ≡ ok r)
unfolding delete_student drop_student_links delete_user remove_paths audit_log ◌>>=◌
delete_student-returns cfg actor s i db by_admin found right other =
    let scope = student_in_scope-ok cfg actor s i db by_admin found right in
    let (kept, runs) = delete_plans-runs (plans_of_student s.id db) db in
    (
      record empty_report {
        plans = length (plans_of_student s.id db);
        drafts = drafts_of (plans_of_student s.id db);
        versions = versions_of (plans_of_student s.id db);
        links = length (links_of_student s.id db);
        files = (remove_files cfg (files_of_plans (plans_of_student s.id db) []) db.disk).0;
      },
      rw (scope, other, runs) refl,
    )
