-- ===== src/Deletion/Advisors.antt =====
-- app/services/deletion.py: deleting an advisor.
use planmaker.Common.{
  ℕ, ◌≡◌, refl, ap, ◌∙◌, Bool, true, false, not, ◌||◌, Option, none, some, List, [], ◌∷◌, map, ◌⊎◌,
  ◌==◌, select, find, All, arith, Bool-cases, Option-cases, inl, inr,
}
use mathlib.Core.Path.{subst}
use planmaker.Common.Result.{Exception, ok, err, access_denied, student_error}
use planmaker.Common.Settings.{Settings}
use planmaker.Database.{Db, User, student}
use planmaker.Database.Action.{audit_log, ◌>>=◌}
use planmaker.Security.{is_admin, role_eq}
use planmaker.Users.{by_id}
use planmaker.Storage.{remove_paths}
use planmaker.Deletion.Students.{delete_plans-runs}
use planmaker.Deletion.{
  delete_user, can_advise, advisor_target, transfer_target, transfer, drop_advisor_links, Strategy,
  transfer_to, detach, delete_advisor, unset, plans_of_advisor,
}

abbrev is_student : User → Bool
is_student u = role_eq u.role student

-- An account but for who created it.
abbrev pub without_creator : User → User
without_creator u = record u { created_by_id = none }

-- The accounts of the students, but for who created them.
abbrev pub student_accounts : List User → List User
student_accounts us = map without_creator (select is_student us)

-- No two accounts have the same number: the primary key of the table.
abbrev pub IsKeyed : List User → Type 0
IsKeyed [] = Unit
IsKeyed (u ∷ us) = All (λ (v : User). v.id == u.id ≡ false) us × IsKeyed us

select-absent :
    (i : ℕ) (us : List User)
    → All (λ (v : User). v.id == i ≡ false) us
    → select (λ (u : User). not (u.id == i)) us ≡ us
select-absent i [] h = refl
select-absent i (u ∷ us) h = let other = h.0 in rw other (ap (λ r. u ∷ r) (select-absent i us h.1))

student_accounts-select :
    (i : ℕ) (us : List User) (a : User)
    → IsKeyed us
    → find (λ u. u.id == i) us ≡ some a
    → is_student a ≡ false
    → student_accounts (select (λ (u : User). not (u.id == i)) us) ≡ student_accounts us
student_accounts-select i [] a keyed h s = cc
student_accounts-select i (u ∷ us) a keyed h s = elim (Bool-cases (u.id == i)) [
  | inl here ↦
      let same : u ≡ a = ground arith in
      let number : u.id ≡ i = ground arith in
      let no_student : is_student u ≡ false = ap is_student same ∙ s in
      let rest =
        select-absent i us (subst (λ k. All (λ (v : User). v.id == k ≡ false) us) number keyed.0) in
      rw (here, no_student) (ap student_accounts rest)
  | inr later ↦
      let ih = student_accounts-select i us a keyed.1 (rw later at h) s in
      rw later (keep_head u (select (λ (v : User). not (v.id == i)) us) us ih)
]
  where
    keep_head :
        (u : User) (xs ys : List User)
        → student_accounts xs ≡ student_accounts ys
        → student_accounts (u ∷ xs) ≡ student_accounts (u ∷ ys)
    keep_head u xs ys h = elim (Bool-cases (is_student u)) [
      | inl yes_student ↦ rw yes_student (ap (λ r. without_creator u ∷ r) h)
      | inr other ↦ rw other h
    ]

student_accounts-unset :
    (i : ℕ) (us : List User)
    → student_accounts (map (λ (u : User). record u { created_by_id = unset i u.created_by_id }) us)
      ≡ student_accounts us
student_accounts-unset i [] = refl
student_accounts-unset i (u ∷ us) = elim (Bool-cases (is_student u)) [
  | inl yes_student ↦ rw yes_student (ap (λ r. without_creator u ∷ r) (student_accounts-unset i us))
  | inr other ↦ rw other (student_accounts-unset i us)
]

-- The configured administrator, whoever is one by the role, and the actor's own account: deleting
-- it as an advisor is refused, and nothing is changed.
pub delete_advisor-protects :
    (cfg : Settings) (actor a : User) (i : ℕ) (strategy : Strategy) (db : Db)
    → by_id i db ≡ some a
    → (is_admin cfg a a.telegram_id || (a.id == actor.id)) ≡ true
    → (is_admin cfg actor actor.telegram_id ≡ true)
    → delete_advisor cfg actor i strategy db ≡ (err student_error, db)
unfolding delete_advisor advisor_target ◌>>=◌
delete_advisor-protects cfg actor a i (transfer_to t) db found special allowed =
    rw (allowed, found) (ground arith)
delete_advisor-protects cfg actor a i detach db found special allowed =
    rw (allowed, found) (ground arith)

advisor_target-cases :
    (cfg : Settings) (actor : User) (i : ℕ) (db : Db)
    → ((a : User) × (advisor_target cfg actor i db ≡ (ok a, db))
        × (by_id i db ≡ some a)
        × (a.id ≡ i)
        × (is_student a ≡ false))
      ⊎ ((e : Exception) × (advisor_target cfg actor i db ≡ (err e, db)))
unfolding advisor_target by_id ◌>>=◌
advisor_target-cases cfg actor i db = elim (Bool-cases (is_admin cfg actor actor.telegram_id)) [
  | inr refused ↦ rw refused (inr (access_denied, refl))
  | inl allowed ↦ elim (Option-cases (by_id i db)) [
    | inl missing ↦ rw (allowed, missing) (inr (student_error, refl))
    | inr (a, found) ↦ elim (Bool-cases (can_advise a)) [
      | inr other_role ↦ rw (allowed, found, other_role) (inr (student_error, refl))
      | inl advises ↦ elim (Bool-cases (a.id == actor.id)) [
        | inl self ↦ rw (allowed, found, advises, self) (inr (student_error, refl))
        | inr other ↦ elim (Bool-cases (is_admin cfg a a.telegram_id)) [
          | inl protected ↦
              rw (allowed, found, advises, other, protected) (inr (student_error, refl))
          | inr plain ↦
              rw (allowed, found, advises, other, plain)
                (inl (a, refl, refl, number_of i db.users a found, no_student a advises))
        ]
      ]
    ]
  ]
]
  where
    number_of : (i : ℕ) (us : List User) (a : User) → find (λ u. u.id == i) us ≡ some a → a.id ≡ i
    number_of i [] a h = cc
    number_of i (u ∷ us) a h = ground (arith, number_of i us a)

    no_student : (a : User) → can_advise a ≡ true → is_student a ≡ false
    no_student a h = ground arith

transfer_target-cases :
    (a : User) (t : Option ℕ) (db : Db)
    → ((u : User) × (transfer_target a t db ≡ (ok u, db)))
      ⊎ ((e : Exception) × (transfer_target a t db ≡ (err e, db)))
unfolding transfer_target ◌>>=◌
transfer_target-cases a none db = inr (student_error, refl)
transfer_target-cases a (some i) db = elim (Bool-cases (i == 0)) [
  | inl missing ↦ rw missing (inr (student_error, refl))
  | inr named ↦ elim (Option-cases (by_id i db)) [
    | inl unknown ↦ rw (named, unknown) (inr (student_error, refl))
    | inr (u, found) ↦ elim (Bool-cases (can_advise u)) [
      | inr other ↦ rw (named, found, other) (inr (student_error, refl))
      | inl advises ↦ elim (Bool-cases (u.id == a.id)) [
        | inl same ↦ rw (named, found, advises, same) (inr (student_error, refl))
        | inr free ↦ rw (named, found, advises, free) (inl (u, refl))
      ]
    ]
  ]
]

students_left :
    (i : ℕ) (us : List User) (a : User)
    → IsKeyed us
    → find (λ u. u.id == i) us ≡ some a
    → is_student a ≡ false
    → student_accounts (
        map
          (λ (u : User). record u { created_by_id = unset i u.created_by_id })
          (select (λ (u : User). not (u.id == i)) us))
      ≡ student_accounts us
students_left i us a keyed found s =
    student_accounts-unset i (select (λ (u : User). not (u.id == i)) us)
    ∙ student_accounts-select i us a keyed found s

module _ (cfg : Settings) (actor : User) (i : ℕ) (db : Db) where
  detach-students :
      (a : User)
      → IsKeyed db.users
      → advisor_target cfg actor i db ≡ (ok a, db)
      → by_id i db ≡ some a
      → a.id ≡ i
      → is_student a ≡ false
      → student_accounts (delete_advisor cfg actor i detach db).1.users ≡ student_accounts db.users
  unfolding delete_advisor delete_user drop_advisor_links remove_paths audit_log by_id ◌>>=◌
  detach-students a keyed target found number s =
      let (kept, runs) = delete_plans-runs (plans_of_advisor a.id db) db in
      rw (target, runs) (rw number (students_left i db.users a keyed found s))

  transfer-students :
      (a : User) (t : Option ℕ)
      → IsKeyed db.users
      → advisor_target cfg actor i db ≡ (ok a, db)
      → by_id i db ≡ some a
      → a.id ≡ i
      → is_student a ≡ false
      → student_accounts (delete_advisor cfg actor i (transfer_to t) db).1.users
        ≡ student_accounts db.users
  unfolding delete_advisor delete_user transfer audit_log by_id ◌>>=◌
  transfer-students a t keyed target found number s = elim (transfer_target-cases a t db) [
    | inr (e, refused) ↦ rw (target, refused) refl
    | inl (u, takes_over) ↦
        rw (target, takes_over) (rw number (students_left i db.users a keyed found s))
  ]

  refused-students :
      (e : Exception) (strategy : Strategy)
      → advisor_target cfg actor i db ≡ (err e, db)
      → (delete_advisor cfg actor i strategy db).1 ≡ db
  unfolding delete_advisor ◌>>=◌
  refused-students e (transfer_to t) h = rw h refl
  refused-students e detach h = rw h refl

-- Whoever deletes an account as an advisor's, with whichever strategy, and whether or not the call
-- succeeds: the accounts of the students are the same behind it, in every column but who created
-- them, if the numbers of the accounts differ.
pub delete_advisor-student_accounts :
    (cfg : Settings) (actor : User) (i : ℕ) (strategy : Strategy) (db : Db)
    → IsKeyed db.users
    → student_accounts (delete_advisor cfg actor i strategy db).1.users ≡ student_accounts db.users
delete_advisor-student_accounts cfg actor i strategy db keyed =
    elim (advisor_target-cases cfg actor i db) [
      | inr (e, refused) ↦
          ap (λ (x : Db). student_accounts x.users)
            (refused-students cfg actor i db e strategy refused)
      | inl (a, target, found, number, s) ↦ by_strategy strategy a target found number s
    ]
  where
    by_strategy :
        (strategy : Strategy) (a : User)
        → advisor_target cfg actor i db ≡ (ok a, db)
        → by_id i db ≡ some a
        → a.id ≡ i
        → is_student a ≡ false
        → student_accounts (delete_advisor cfg actor i strategy db).1.users
          ≡ student_accounts db.users
    by_strategy detach a target found number s =
        detach-students cfg actor i db a keyed target found number s
    by_strategy (transfer_to t) a target found number s =
        transfer-students cfg actor i db a t keyed target found number s
