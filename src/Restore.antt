-- ===== src/Restore.antt =====
-- app/services/restore.py: `RestoreService.restore`, which wipes the live database and loads one of
-- the bot's own archives, after the checks of `inspect`.
--
-- The live database is behind an interface: the tools that load a script, the migrations, the
-- counts and the audit log are its operations on a state.
pub mod Archive
pub mod Outcome
pub mod Plan
use planmaker.Common.{
  ℕ, Bool, true, false, not, ◌&&◌, ◌||◌, Option, none, some, List, [], ◌∷◌, ◌++◌, ltb, ◌==◌,
  if◌then◌else◌, select, map,
}
use planmaker.Common.Dict.{lookup, insert}
use planmaker.Common.Result.{Result, ok, err, restore_error, other_error}
use planmaker.Common.Text.{Text, codes, text_eq, is_empty}
use planmaker.Restore.Archive.{
  Library, text_key, sort_names, Warning, no_safety_backup, no_migration,
}
use planmaker.Restore.Plan.{
  Host, File, Executor, psql, sqlalchemy, pg_restore, RestorePlan, Problem, inspect,
}
use Prim.Native.String.{String}

abbrev pub Counts : Type 0
Counts = List (Text × ℕ)

-- The live database: loading a script by a program, with its error; the settings row; the
-- migrations (`none` when they raise), whether any ran and the revision; the estimated counts
-- (`none` when they raise) and the exact ones; an audit entry.
pub record Live (S : Type 0) : Type 0 where
  pub load : Executor → RestorePlan → S → Option Text × S
  pub ensure_settings_row : S → S
  pub ensure_schema : S → Option (Bool × Option Text) × S
  pub live_counts : S → Option Counts
  pub exact_counts : S → Counts
  pub log_audit : String → Option ℕ → S → S

pub record RestoreResult : Type 0 where
  pub plan : RestorePlan
  pub ok : Bool
  pub executor : Executor
  pub verified : Counts
  pub mismatches : List Text
  pub revision_after : Option Text
  pub migrated : Bool
  pub has_safety_backup : Bool
  pub error : Option Text

-- The program that `_apply` uses.
abbrev pub used_executor : Host → Executor → Executor
used_executor host psql = if host.which (codes "psql") then psql else sqlalchemy
used_executor host pg_restore = if host.which (codes "pg_restore") then pg_restore else sqlalchemy
used_executor host sqlalchemy = sqlalchemy

-- `merged.update(exact)`
unfoldable pub merge_counts : Counts → Counts → Counts
merge_counts counts [] = counts
merge_counts counts ((table, n) ∷ exact) = merge_counts (insert text_key table n counts) exact

-- The tests on one table of the archive, with its count after the load.
abbrev pub differs : Text → ℕ → Option ℕ → Bool
differs table expected none = false
differs table expected (some n) =
    not (n == expected)
    && not (text_eq table (codes "audit_logs") && ltb expected n)
    && not (text_eq table (codes "bot_settings") && n == 1)

abbrev pub is_mismatch : Counts → Text × ℕ → Bool
is_mismatch verified (table, expected) = differs table expected (lookup text_key table verified)

unfoldable pub mismatches_of : Counts → Counts → List Text
unfolding sort_names
mismatches_of archive_counts verified =
    map (λ c. c.0) (select (is_mismatch verified) (sort_names archive_counts))

-- What `run_migrations` asks for: nothing, or the migrations.
abbrev pub migration : {S : Type 0} → Live S → Bool → S → Option (Bool × Option Text) × S
migration live wanted s = if wanted then live.ensure_schema s else (some (false, none), s)

abbrev warned : Option (Bool × Option Text) → RestorePlan → RestorePlan
warned none plan = record plan { warnings = plan.warnings ++ no_migration ∷ [] }
warned (some m) plan = plan

abbrev migrated_by : Option (Bool × Option Text) → Bool × Option Text
migrated_by none = (false, none)
migrated_by (some m) = m

abbrev pub completion : List Text → String
completion mismatches =
    if is_empty mismatches then "restore.completed" else "restore.completed_with_diff"

abbrev pub verified_result :
    {S : Type 0}
    → Live S
    → Option ℕ
    → RestorePlan
    → Executor
    → Bool
    → Bool × Option Text
    → Option Counts
    → S
    → Result RestoreResult × S
verified_result live actor_id plan executor safety outcome none s = (err other_error, s)
verified_result live actor_id plan executor safety outcome (some counts) s =
    let verified = merge_counts counts (live.exact_counts s) in
    let mismatches = mismatches_of plan.archive_counts verified in
    (
      Result.ok record {
        plan = plan;
        ok = true;
        executor = executor;
        verified = verified;
        mismatches = mismatches;
        revision_after = outcome.1;
        migrated = outcome.0;
        has_safety_backup = safety;
        error = none;
      },
      live.log_audit (completion mismatches) actor_id s,
    )

-- `restore` after `_apply`.
abbrev pub loaded :
    {S : Type 0}
    → Live S
    → Option ℕ
    → Bool
    → RestorePlan
    → Executor
    → Bool
    → Option Text
    → S
    → Result RestoreResult × S
loaded live actor_id run_migrations plan executor safety (some error) s = (
  Result.ok record {
    plan = plan;
    ok = false;
    executor = executor;
    verified = [];
    mismatches = [];
    revision_after = none;
    migrated = false;
    has_safety_backup = safety;
    error = some error;
  },
  live.log_audit "restore.failed" actor_id (live.ensure_settings_row s),
)
loaded live actor_id run_migrations plan executor safety none s =
    let (outcome, migrated) = migration live run_migrations (live.ensure_settings_row s) in
    let started = live.log_audit "restore.started" actor_id migrated in
    verified_result live actor_id (warned outcome plan) executor safety (migrated_by outcome)
      (live.live_counts started) started

-- The safety backup, which never stops a restore: `backed_up` says whether it was made.
abbrev secured : Bool → Bool → RestorePlan → RestorePlan
secured wanted backed_up plan =
    if wanted && not backed_up
    then record plan { warnings = plan.warnings ++ no_safety_backup ∷ [] }
    else plan

abbrev pub applied :
    {S : Type 0}
    → Live S
    → Host
    → Option ℕ
    → Bool
    → Bool
    → Bool
    → RestorePlan
    → S
    → Result RestoreResult × S
applied live host actor_id safety_backup backed_up run_migrations plan s =
    let secure = secured safety_backup backed_up plan in
    let executor = used_executor host plan.executor in
    let (error, after) = live.load executor secure s in
    loaded live actor_id run_migrations secure executor (safety_backup && backed_up) error after

abbrev pub unless_fatal :
    {S : Type 0} → Option Problem → Result RestoreResult × S → S → Result RestoreResult × S
unless_fatal none done s = done
unless_fatal (some problem) done s = (err restore_error, s)

abbrev pub decided :
    {S : Type 0}
    → Live S
    → Host
    → Option ℕ
    → Bool
    → Bool
    → Bool
    → Result RestorePlan
    → S
    → Result RestoreResult × S
decided live host actor_id safety_backup backed_up run_migrations (err e) s = (err e, s)
decided live host actor_id safety_backup backed_up run_migrations (Result.ok plan) s =
    unless_fatal plan.fatal
      (applied live host actor_id safety_backup backed_up run_migrations plan s) s

unfoldable pub restore :
    {S : Type 0}
    → Live S
    → Library
    → Host
    → Option File
    → Option ℕ
    → Bool
    → Bool
    → Bool
    → S
    → Result RestoreResult × S
unfolding inspect merge_counts mismatches_of
restore live lib host path actor_id safety_backup backed_up run_migrations s =
    decided live host actor_id safety_backup backed_up run_migrations (inspect lib host true path) s
