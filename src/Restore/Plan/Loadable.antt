-- ===== src/Restore/Plan/Loadable.antt =====
-- app/services/restore.py, `inspect`: what holds of every plan that it returns.
use planmaker.Common.{
  ℕ, ◌≡◌, refl, sym, ap, ◌∙◌, ◌≢◌, ◌⊎◌, inl, inr, Bool, true, false, not, ◌&&◌, Option, none, some,
  List, [], if◌then◌else◌, All, is_some, Bool-cases, arith,
}
use planmaker.Common.Dict.{lookup}
use planmaker.Common.Result.{ok, err, restore_error, ok-injective, >>=-eq_ok}
use planmaker.Common.Text.{Text, text_eq, codes}
use planmaker.Restore.Archive.{Library, Members, text_key, check_archive}
use planmaker.Restore.Archive.Checked.{IsChecked, listed, check_archive-strict_iff}
use planmaker.Restore.Plan.{
  Host, File, Problem, dump_sql, data_sql, pgdump_bin, pg_restore, psql_or_sqlalchemy, RestorePlan,
  Executor, other_dialect, live_database, sqlalchemy, has, choose_script, dialect_of, target_of,
  dialect_warnings, inspect, inspect_sync, compared, sized, revision_problem, order_from,
  add_problem, opened_members, meta_of, for_app,
}

-- The script of each branch.
script-cases :
    (d p q : Bool) (x y : Executor) (chosen : Text × Executor)
    → (if d
        then ok (dump_sql, x)
        else if p
        then ok (pgdump_bin, pg_restore)
        else if q
        then ok (data_sql, y)
        else err restore_error)
      ≡ ok chosen
    → ((d ≡ true) × (dump_sql ≡ chosen.0))
      ⊎ ((p ≡ true) × (pgdump_bin ≡ chosen.0))
      ⊎ ((q ≡ true) × (data_sql ≡ chosen.0))
script-cases true p q x y chosen h = inl (refl, ap (λ c. c.0) (ok-injective h))
script-cases false true q x y chosen h = inr (inl (refl, ap (λ c. c.0) (ok-injective h)))
script-cases false false true x y chosen h = inr (inr (refl, ap (λ c. c.0) (ok-injective h)))
script-cases false false false x y chosen h = cc

and-left : (a b : Bool) → (a && b) ≡ true → a ≡ true
and-left a b h = ground (arith, h)

choose_script-has :
    (host : Host) (members : Members) (chosen : Text × Executor)
    → choose_script host members ≡ ok chosen
    → has members chosen.0 ≡ true
unfolding choose_script
choose_script-has host members chosen found =
    elim (script-cases (has members dump_sql)
      (has members pgdump_bin && host.which (codes "pg_restore")) (has members data_sql)
      (psql_or_sqlalchemy host) (psql_or_sqlalchemy host) chosen found) [
        | inl (there, same) ↦ ap (has members) (sym same) ∙ there
        | inr (inl (there, same)) ↦
            ap (has members) (sym same)
            ∙ and-left (has members pgdump_bin) (host.which (codes "pg_restore")) there
        | inr (inr (there, same)) ↦ ap (has members) (sym same) ∙ there
      ]

-- Every listed member is unchanged, and the script that will be run is in the archive.
abbrev pub IsLoadable : Library → RestorePlan → Type 0
IsLoadable lib plan =
    All (IsChecked lib plan.members) (listed lib plan.members)
    × (has plan.members plan.script ≡ true)

inspect_sync-IsLoadable :
    (lib : Library) (host : Host) (file : File) (plan : RestorePlan)
    → inspect_sync lib host true file ≡ ok plan
    → IsLoadable lib plan
unfolding inspect_sync
inspect_sync-IsLoadable lib host file plan returned =
    let (members, h0, r0) = >>=-eq_ok (opened_members lib file.opened) _ returned in
    let (loaded, h1, r1) =
      >>=-eq_ok (meta_of (lookup text_key (codes "metadata.json") members) host) _ r0 in
    let (meta, h2, r2) = >>=-eq_ok (for_app loaded) _ r1 in
    let (warnings, h3, r3) = >>=-eq_ok (check_archive lib true members) _ r2 in
    let (chosen, h4, r4) = >>=-eq_ok (choose_script host members) _ r3 in
    rw (sym (ok-injective r4)) (
      (check_archive-strict_iff lib members).0 (warnings, h3),
      choose_script-has host members chosen h4,
    )

-- The dialect of the dump is the one of the live database.
abbrev pub SameDialect : Host → RestorePlan → Type 0
SameDialect host plan = text_eq (dialect_of plan.meta) (target_of host) ≡ true

-- The later steps keep the members, the script and the metadata.
abbrev Keeps : RestorePlan → RestorePlan → Type 0
Keeps plan final =
    (final.members ≡ plan.members) × (final.script ≡ plan.script) × (final.meta ≡ plan.meta)

Keeps-if :
    (b : Bool) (plan x y : RestorePlan)
    → Keeps plan x
    → Keeps plan y
    → Keeps plan (if b then x else y)
Keeps-if true plan x y h k = h
Keeps-if false plan x y h k = k

dialect_warnings-Keeps :
    (host : Host) (plan : RestorePlan) → Keeps plan (dialect_warnings host plan)
unfolding dialect_warnings
dialect_warnings-Keeps host plan =
    let lite = record plan { executor = sqlalchemy } in
    Keeps-if (not (text_eq (dialect_of plan.meta) (target_of host))) plan
      (record plan { fatal = some other_dialect }) (if host.is_sqlite then lite else plan)
      (refl, refl, refl)
      (Keeps-if host.is_sqlite plan lite plan (refl, refl, refl) (refl, refl, refl))

refused :
    (host : Host) (plan : RestorePlan)
    → text_eq (dialect_of plan.meta) (target_of host) ≡ false
    → (dialect_warnings host plan).fatal ≡ some other_dialect
unfolding dialect_warnings
refused host plan other =
    ap
      (λ b.
        (if not b
          then record plan { fatal = some other_dialect }
          else if host.is_sqlite
          then record plan { executor = sqlalchemy }
          else plan).fatal)
      other

some≢none : (p : Problem) → some p ≢ none
some≢none p h = cc

dialect_warnings-same :
    (host : Host) (plan : RestorePlan)
    → (dialect_warnings host plan).fatal ≡ none
    → SameDialect host plan
unfolding dialect_warnings
dialect_warnings-same host plan free =
    elim (Bool-cases (text_eq (dialect_of plan.meta) (target_of host))) [
      | inl same ↦ same
      | inr other ↦ absurd (some≢none other_dialect (sym (refused host plan other) ∙ free))
    ]

add_problem-free :
    (host : Host) (problem : Option Problem) (plan : RestorePlan)
    → (add_problem host problem plan).fatal ≡ none
    → (problem ≡ none) × (plan.fatal ≡ none)
add_problem-free host none plan free = (refl, free)
add_problem-free host (some p) plan free = cc

add_problem-Keeps :
    (host : Host) (problem : Option Problem) (plan : RestorePlan)
    → Keeps plan (add_problem host problem plan)
add_problem-Keeps host none plan = (refl, refl, refl)
add_problem-Keeps host (some p) plan = (refl, refl, refl)

compared-Keeps :
    (host : Host) (counts : Option (List (Text × ℕ))) (plan final : RestorePlan)
    → compared host counts plan ≡ ok final
    → Keeps plan final
unfolding dialect_warnings
compared-Keeps host none plan final h = rw (sym (ok-injective h)) (refl, refl, refl)
compared-Keeps host (some counts) plan final h =
    let asked = record plan { now_counts = counts } in
    let next = dialect_warnings host asked in
    let (problem, known, last) =
      >>=-eq_ok (revision_problem plan.meta.alembic_revision host.head (order_from 0 host.walk []))
        _ h in
    let first = dialect_warnings-Keeps host asked in
    let second = add_problem-Keeps host problem next in
    rw (sym (ok-injective last)) (second.0 ∙ first.0, second.1 ∙ first.1, second.2 ∙ first.2)

-- What a plan without a refusal has passed: the database is readable, the archive's revision is no
-- problem and the dialects agree.
abbrev pub IsAllowed : Host → RestorePlan → Type 0
IsAllowed host plan =
    (is_some host.live_counts ≡ true)
    × (revision_problem plan.meta.alembic_revision host.head (order_from 0 host.walk []) ≡ ok none)
    × SameDialect host plan

compared-IsAllowed :
    (host : Host) (counts : Option (List (Text × ℕ))) (plan final : RestorePlan)
    → compared host counts plan ≡ ok final
    → final.fatal ≡ none
    → (is_some counts ≡ true)
      × (revision_problem plan.meta.alembic_revision host.head (order_from 0 host.walk [])
          ≡ ok none)
      × SameDialect host plan
compared-IsAllowed host none plan final h free =
    absurd (some≢none live_database (ap (λ p. p.fatal) (ok-injective h) ∙ free))
compared-IsAllowed host (some counts) plan final h free =
    let asked = record plan { now_counts = counts } in
    let next = dialect_warnings host asked in
    let (problem, known, last) =
      >>=-eq_ok (revision_problem plan.meta.alembic_revision host.head (order_from 0 host.walk []))
        _ h in
    let (clear, calm) =
      add_problem-free host problem next (ap (λ p. p.fatal) (ok-injective last) ∙ free) in
    (refl, known ∙ ap ok clear, dialect_warnings-same host asked calm)

-- A plan that a strict inspection returns can be trusted: every member that checksums.txt lists and
-- the archive has is unchanged, other than the derived ones, and the script that will be run is a
-- member. If the plan is not refused, the live database was readable, the revision of the archive
-- was no problem for the installed code and the dialects agree.
pub inspect-IsLoadable :
    (lib : Library) (host : Host) (path : Option File) (plan : RestorePlan)
    → inspect lib host true path ≡ ok plan
    → IsLoadable lib plan × (plan.fatal ≡ none → IsAllowed host plan)
unfolding inspect
inspect-IsLoadable lib host path plan returned =
    let (file, h0, r0) = >>=-eq_ok (sized host path) _ returned in
    let (first, h1, r1) = >>=-eq_ok (inspect_sync lib host true file) _ r0 in
    let (members, script, meta) = compared-Keeps host host.live_counts first plan r1 in
    let (checked, there) = inspect_sync-IsLoadable lib host file first h1 in
    (
      rw (members, script) (checked, there),
      λ free. rw meta (compared-IsAllowed host host.live_counts first plan r1 free),
    )
