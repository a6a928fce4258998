-- ===== src/Restore/Outcome.antt =====
-- app/services/restore.py, `RestoreService.restore`: what it does to the live database.
use planmaker.Common.{
  ℕ, ltb, ◌==◌, ◌<◌, ◌≡◌, refl, ap, ◌≢◌, ◌↔◌, ◌⊎◌, inl, inr, Bool, true, false, not, ◌&&◌, Option,
  none, some, List, [], ◌∷◌, All, All-imp, select, map, Bool-cases, Option-cases, arith,
}
use planmaker.Common.Dict.{lookup}
use planmaker.Common.Result.{Exception, Result, ok, err, restore_error}
use planmaker.Common.Text.{Text, codes, text_eq}
use planmaker.Restore.Archive.{Library, text_key, sort_names}
use planmaker.Restore.Archive.Checked.{All-sort_names}
use planmaker.Restore.Plan.{Host, File, RestorePlan, inspect}
use planmaker.Restore.Plan.Loadable.{IsLoadable, IsAllowed, inspect-IsLoadable}
use planmaker.Restore.{
  Live, Counts, restore, decided, applied, unless_fatal, differs, is_mismatch, mismatches_of,
}

-- The result is an exception and the database is as it was, or a plan that is not refused is
-- applied.
decided-cases :
    {S : Type 0} (live : Live S) (host : Host) (actor : Option ℕ) (safety backed_up migrate : Bool)
    (inspected : Result RestorePlan) (s : S)
    → ((e : Exception) × (decided live host actor safety backed_up migrate inspected s
          ≡ (err e, s)))
      ⊎ ((plan : RestorePlan) × (inspected ≡ ok plan)
          × (plan.fatal ≡ none)
          × (decided live host actor safety backed_up migrate inspected s
              ≡ applied live host actor safety backed_up migrate plan s))
decided-cases live host actor safety backed_up migrate (err e) s = inl (e, refl)
decided-cases live host actor safety backed_up migrate (ok plan) s =
    elim (Option-cases plan.fatal) [
      | inl free ↦ inr (
        plan,
        refl,
        free,
        ap (λ p. unless_fatal p (applied live host actor safety backed_up migrate plan s) s) free,
      )
      | inr (problem, fatal) ↦ inl (
        restore_error,
        ap (λ p. unless_fatal p (applied live host actor safety backed_up migrate plan s) s) fatal,
      )
    ]

-- A restore that raises before anything is loaded leaves the live database as it was. Otherwise the
-- archive has passed the inspection: its listed members are unchanged, its script is in the archive,
-- the live database was readable, and neither the revision nor the dialect was a problem.
pub restore-safe :
    {S : Type 0} (live : Live S) (lib : Library) (host : Host) (path : Option File)
    (actor : Option ℕ) (safety backed_up migrate : Bool) (s : S)
    → ((e : Exception) × (restore live lib host path actor safety backed_up migrate s ≡ (err e, s)))
      ⊎ ((plan : RestorePlan) × IsLoadable lib plan
          × IsAllowed host plan
          × (restore live lib host path actor safety backed_up migrate s
              ≡ applied live host actor safety backed_up migrate plan s))
unfolding restore
restore-safe live lib host path actor safety backed_up migrate s =
    elim (decided-cases live host actor safety backed_up migrate (inspect lib host true path) s) [
      | inl stopped ↦ inl stopped
      | inr (plan, inspected, free, done) ↦
          let (loadable, allowed) = inspect-IsLoadable lib host path plan inspected in
          inr (plan, loadable, allowed free, done)
    ]

true≢false : true ≢ false
true≢false h = cc

cons≢nil : {A : Type 0} (x : A) (xs : List A) → (x ∷ xs) ≢ []
cons≢nil x xs h = cc

select-empty_iff :
    {A : Type 0} (p : A → Bool) (xs : List A) → (select p xs ≡ []) ↔ All (λ x. p x ≡ false) xs
select-empty_iff p [] = (λ h. tt, λ h. refl)
select-empty_iff p (x ∷ xs) = elim (Bool-cases (p x)) [
  | inl passes ↦ rw passes (λ h. absurd (cons≢nil x (select p xs) h), λ h. absurd (true≢false h.0))
  | inr fails ↦
      rw fails (λ h. (refl, (select-empty_iff p xs).0 h), λ h. (select-empty_iff p xs).1 h.1)
]

map-empty_iff : {A B : Type 0} (f : A → B) (xs : List A) → (map f xs ≡ []) ↔ (xs ≡ [])
map-empty_iff f [] = (λ h. refl, λ h. refl)
map-empty_iff f (x ∷ xs) = (λ h. cc, λ h. cc)

-- One table of the archive is as it should be after the load.
abbrev pub IsRestored : Counts → Text × ℕ → Type 0
IsRestored verified c =
    (lookup text_key c.0 verified ≡ none)
    ⊎ ((n : ℕ) × (lookup text_key c.0 verified ≡ some n)
        × ((n ≡ c.1)
            ⊎ ((text_eq c.0 (codes "audit_logs") ≡ true) × (c.1 < n))
            ⊎ ((text_eq c.0 (codes "bot_settings") ≡ true) × (n ≡ 1))))

tests_iff :
    (a b : Bool) (expected n : ℕ)
    → ((not (n == expected) && not (a && ltb expected n) && not (b && n == 1)) ≡ false)
      ↔ ((n ≡ expected) ⊎ ((a ≡ true) × (expected < n)) ⊎ ((b ≡ true) × (n ≡ 1)))
tests_iff true true expected n = (λ h. ground (arith, h), λ h. ground (arith, h))
tests_iff true false expected n = (λ h. ground (arith, h), λ h. ground (arith, h))
tests_iff false true expected n = (λ h. ground (arith, h), λ h. ground (arith, h))
tests_iff false false expected n = (λ h. ground (arith, h), λ h. ground (arith, h))

differs_iff :
    (table : Text) (expected n : ℕ)
    → (differs table expected (some n) ≡ false) ↔ (
        (n ≡ expected)
        ⊎ ((text_eq table (codes "audit_logs") ≡ true) × (expected < n))
        ⊎ ((text_eq table (codes "bot_settings") ≡ true) × (n ≡ 1)))
differs_iff table expected n =
    tests_iff (text_eq table (codes "audit_logs")) (text_eq table (codes "bot_settings")) expected n

counted_iff :
    (table : Text) (expected : ℕ) (o : Option ℕ)
    → (differs table expected o ≡ false) ↔ (
        (o ≡ none)
        ⊎ ((n : ℕ) × (o ≡ some n)
            × ((n ≡ expected)
                ⊎ ((text_eq table (codes "audit_logs") ≡ true) × (expected < n))
                ⊎ ((text_eq table (codes "bot_settings") ≡ true) × (n ≡ 1)))))
counted_iff table expected none = (λ h. inl refl, λ h. refl)
counted_iff table expected (some n) = (
  λ h. inr (n, refl, (differs_iff table expected n).0 h),
  λ h. elim h [
    | inl e ↦ cc
    | inr (m, e, good) ↦ let same : n ≡ m = cc in (differs_iff table expected n).1 (rw same good)
  ],
)

is_mismatch_iff :
    (verified : Counts) (c : Text × ℕ) → (is_mismatch verified c ≡ false) ↔ IsRestored verified c
is_mismatch_iff verified (table, expected) =
    counted_iff table expected (lookup text_key table verified)

-- A verified restore reports no mismatch exactly when every table that the archive counts has its
-- count after the load, or cannot be counted, or is the audit log with more rows, or is the
-- settings table with its one row.
pub mismatches_of_iff :
    (archive_counts verified : Counts)
    → (mismatches_of archive_counts verified ≡ []) ↔ All (IsRestored verified) archive_counts
unfolding mismatches_of
mismatches_of_iff archive_counts verified =
    let sorted = sort_names archive_counts in
    let bad = is_mismatch verified in
    (
      λ h. (All-sort_names (IsRestored verified) archive_counts).0 (
          All-imp _ _ sorted (λ c k. (is_mismatch_iff verified c).0 k)
            ((select-empty_iff bad sorted).0 ((map-empty_iff (λ c. c.0) (select bad sorted)).0 h))),
      λ h. (map-empty_iff (λ c. c.0) (select bad sorted)).1 (
          (select-empty_iff bad sorted).1 (
            All-imp _ _ sorted (λ c k. (is_mismatch_iff verified c).1 k)
              ((All-sort_names (IsRestored verified) archive_counts).1 h))),
    )
