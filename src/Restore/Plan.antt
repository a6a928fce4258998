-- ===== src/Restore/Plan.antt =====
-- app/services/restore.py: `RestoreService.inspect`, which decides what restoring an archive would
-- do and whether it may be done.
--
-- The titles and the facts that are only shown to the administrator are left out of the plan.
pub mod Loadable
pub mod Refusals
use planmaker.Common.{
  ℕ, suc, ◌+◌, Bool, true, false, not, ◌&&◌, ◌||◌, Option, none, some, List, [], ◌∷◌, ◌++◌, ltb,
  ◌==◌, if◌then◌else◌, is_some,
}
use planmaker.Common.Dict.{lookup, insert}
use planmaker.Common.Result.{Result, ok, err, restore_error, key_error, ◌>>=◌}
use planmaker.Common.Text.{Text, codes, is_empty, text_eq}
use planmaker.Restore.Archive.{
  Library, Member, Members, Bytes, Warning, no_users, other_revision, text_key, member_map,
  check_archive,
}

-- metadata.json, as far as it is read.
pub record Meta : Type 0 where
  pub app : Text
  pub dialect : Text
  pub row_counts : List (Text × ℕ)
  pub alembic_revision : Option Text

-- What the surroundings say: the installed programs, the configured database, its live counts
-- (`none` when reading them raises), the migrations that Alembic finds with their head, newest
-- first, json.loads (`none` when it raises), and the two searches for a revision.
pub record Host : Type 0 where
  pub which : Text → Bool
  pub is_sqlite : Bool
  pub live_counts : Option (List (Text × ℕ))
  pub head : Option Text
  pub walk : List Text
  pub load_json : Bytes → Option Meta
  pub revision_in_sql : Text → Option Text
  pub revision_in_json : Bytes → Option Text
  pub max_bytes : ℕ

-- A file: `none` inside is a file that is no tar archive.
pub record File : Type 0 where
  pub size : ℕ
  pub opened : Option (List Member)

pub data Executor : Type 0 where
  psql sqlalchemy pg_restore : Executor

pub data Problem : Type 0 where
  live_database other_dialect unknown_revision newer_revision : Problem

pub record RestorePlan : Type 0 where
  pub meta : Meta
  pub members : Members
  pub script : Text
  pub executor : Executor
  pub now_counts : List (Text × ℕ)
  pub archive_counts : List (Text × ℕ)
  pub warnings : List Warning
  pub fatal : Option Problem

abbrev pub dump_sql : Text
dump_sql = codes "sql/dump.sql"

abbrev pub data_sql : Text
data_sql = codes "sql/data_only.sql"

abbrev pub pgdump_bin : Text
pgdump_bin = codes "sql/pgdump.dump"

abbrev pub has : Members → Text → Bool
has members name = is_some (lookup text_key name members)

abbrev pub psql_or_sqlalchemy : Host → Executor
psql_or_sqlalchemy host = if host.which (codes "psql") then psql else sqlalchemy

unfoldable pub choose_script : Host → Members → Result (Text × Executor)
choose_script host members =
    if has members dump_sql
    then ok (dump_sql, psql_or_sqlalchemy host)
    else if has members pgdump_bin && host.which (codes "pg_restore")
    then ok (pgdump_bin, pg_restore)
    else if has members data_sql
    then ok (data_sql, psql_or_sqlalchemy host)
    else err restore_error

abbrev text_or_none : Option Text → Option Text
text_or_none none = none
text_or_none (some t) = if is_empty t then none else some t

abbrev or_search : Option Text → Option Text → Option Text
or_search none later = later
or_search (some r) later = some r

abbrev bind : Option Bytes → (Bytes → Option Text) → Option Text
bind none f = none
bind (some raw) f = f raw

-- The three places that name the revision, and the metadata otherwise.
unfoldable pub archive_revision : Library → Host → Members → Meta → Option Text
archive_revision lib host members meta =
    let in_sql : Text → Option Text =
      λ name. bind (lookup text_key name members) (λ raw. host.revision_in_sql (lib.decode raw)) in
    let in_json =
      bind (lookup text_key (codes "json/alembic_version.json") members) host.revision_in_json in
    let found = or_search (in_sql dump_sql) (or_search in_json (in_sql data_sql)) in
    or_search (text_or_none found) (text_or_none meta.alembic_revision)

abbrev pub meta_of : Option Bytes → Host → Result Meta
meta_of none host = err restore_error
meta_of (some raw) host = elim (host.load_json raw) [ none ↦ err restore_error | some m ↦ ok m ]

abbrev pub for_app : Meta → Result Meta
for_app meta = if text_eq meta.app (codes "rotbeland") then ok meta else err restore_error

abbrev pub opened_members : Library → Option (List Member) → Result Members
opened_members lib none = err restore_error
opened_members lib (some infos) = ok (member_map lib [] infos)

unfoldable pub inspect_sync : Library → Host → Bool → File → Result RestorePlan
unfolding check_archive choose_script archive_revision member_map
inspect_sync lib host strict file = do
  members ← opened_members lib file.opened
  loaded ← meta_of (lookup text_key (codes "metadata.json") members) host
  meta ← for_app loaded
  warnings ← check_archive lib strict members
  chosen ← choose_script host members
  ok record {
    meta = record meta { alembic_revision = archive_revision lib host members meta };
    members = members;
    script = chosen.0;
    executor = chosen.1;
    now_counts = [];
    archive_counts = meta.row_counts;
    warnings = warnings;
    fatal = none;
  }

-- `_installed_revisions`: a revision's place in the walk, which the code negates.
unfoldable pub order_from : ℕ → List Text → List (Text × ℕ) → List (Text × ℕ)
order_from index [] out = out
order_from index (r ∷ rs) out = order_from (suc index) rs (insert text_key r index out)

abbrev pub compare_places : Option ℕ → Option ℕ → Result (Option Problem)
compare_places none head = ok (some unknown_revision)
compare_places (some place) none = err key_error
compare_places (some place) (some head) = ok (if ltb place head then some newer_revision else none)

-- `_revision_problem`
unfoldable pub revision_problem :
    Option Text → Option Text → List (Text × ℕ) → Result (Option Problem)
revision_problem none head order = ok none
revision_problem (some r) none order = ok none
revision_problem (some r) (some h) order =
    let places = compare_places (lookup text_key r order) (lookup text_key h order) in
    if is_empty order || text_eq r h then ok none else places

-- `plan.dialect`
abbrev pub dialect_of : Meta → Text
dialect_of meta = if is_empty meta.dialect then codes "postgresql" else meta.dialect

abbrev pub target_of : Host → Text
target_of host = if host.is_sqlite then codes "sqlite" else codes "postgresql"

-- `_dialect_warnings`
unfoldable pub dialect_warnings : Host → RestorePlan → RestorePlan
dialect_warnings host plan =
    if not (text_eq (dialect_of plan.meta) (target_of host))
    then record plan { fatal = some other_dialect }
    else if host.is_sqlite
    then record plan { executor = sqlalchemy }
    else plan

abbrev pub revision_warnings : Option Text → Option Text → List Warning
revision_warnings (some r) (some h) = if text_eq r h then [] else other_revision r ∷ []
revision_warnings _ _ = []

abbrev pub add_problem : Host → Option Problem → RestorePlan → RestorePlan
add_problem host (some p) plan = record plan { fatal = some p }
add_problem host none plan = record plan {
  warnings = plan.warnings ++ revision_warnings plan.meta.alembic_revision host.head;
}

abbrev user_count : Option ℕ → ℕ
user_count none = 0
user_count (some n) = n

abbrev pub add_no_users : RestorePlan → RestorePlan
add_no_users plan = record plan {
  warnings =
      if user_count (lookup text_key (codes "users") plan.archive_counts) == 0
      then plan.warnings ++ no_users ∷ []
      else plan.warnings;
}

abbrev pub compared : Host → Option (List (Text × ℕ)) → RestorePlan → Result RestorePlan
compared host none plan = ok (record plan { fatal = some live_database })
compared host (some counts) plan = do
  problem ← revision_problem plan.meta.alembic_revision host.head (order_from 0 host.walk [])
  ok (
      add_no_users
        (add_problem host problem (dialect_warnings host (record plan { now_counts = counts }))))

abbrev pub sized : Host → Option File → Result File
sized host none = err restore_error
sized host (some file) =
    if (file.size == 0) || ltb host.max_bytes file.size then err restore_error else ok file

-- `inspect`: `none` for a path that does not exist.
unfoldable pub inspect : Library → Host → Bool → Option File → Result RestorePlan
unfolding inspect_sync revision_problem order_from dialect_warnings
inspect lib host strict path = do
  file ← sized host path
  plan ← inspect_sync lib host strict file
  compared host host.live_counts plan
