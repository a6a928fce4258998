-- ===== src/Examples/Archives.antt =====
-- An archive that is restored.
use planmaker.Common.{◌+◌, ℕ, ◌≡◌, refl, ◌↔◌, ◌⊎◌, true, false, none, some, List, [], ◌∷◌, ◌++◌}
use planmaker.Common.Result.{Exception, ok, err}
use planmaker.Common.Text.{Text, codes, split_on}
use planmaker.Restore.Archive.{Library, Member, Members}
use planmaker.Restore.Plan.{Host, File, RestorePlan, revision_problem, order_from}
use planmaker.Restore.Plan.Refusals.{revision_problem-walk_iff, is_in}
use planmaker.Restore.Plan.Loadable.{IsLoadable, IsAllowed}
use planmaker.Restore.{Live, restore, applied}
use planmaker.Restore.Outcome.{restore-safe}

abbrev lib : Library
lib = record {
  sha256 = λ raw. raw;
  decode = λ raw. raw;
  splitlines = split_on 10;
  lower = λ t. t;
  parts = split_on 47;
}

-- The digest is the content itself here.
abbrev members : Members
members =
    (codes "metadata.json", codes "{}")
    ∷ (codes "sql/dump.sql", codes "abc")
    ∷ (codes "checksums.txt", codes "abc  sql/dump.sql")
    ∷ []

abbrev walk : List Text
walk = codes "r3" ∷ codes "r2" ∷ codes "r1" ∷ []

revision_problem-walk_iff_example :
    (revision_problem (some (codes "r1")) (some (codes "r3")) (order_from 0 walk []) ≡ ok none)
    ↔ (is_in (codes "r1") walk ≡ true)
revision_problem-walk_iff_example =
    revision_problem-walk_iff (codes "r1") (codes "r3") walk (refl, refl)

abbrev host : Host
host = record {
  which = λ p. true;
  is_sqlite = false;
  live_counts = some [];
  head = some (codes "r3");
  walk = walk;
  load_json = λ raw. some record {
    app = codes "rotbeland";
    dialect = codes "postgresql";
    row_counts = (codes "users", 2) ∷ [];
    alembic_revision = some (codes "r1");
  };
  revision_in_sql = λ t. none;
  revision_in_json = λ raw. none;
  max_bytes = 1000;
}

abbrev member : Text → Text → Member
member name content = record { name = codes "a/" ++ name; is_file = true; content = content }

abbrev upload : File
upload = record {
  size = 100;
  opened = some (
      member (codes "metadata.json") (codes "{}")
      ∷ member (codes "sql/dump.sql") (codes "abc")
      ∷ []);
}

-- A database that counts its audit entries.
abbrev live : Live ℕ
live = record {
  load = λ executor plan n. (none, n);
  ensure_settings_row = λ n. n;
  ensure_schema = λ n. (some (false, none), n);
  live_counts = λ n. some ((codes "users", 2) ∷ []);
  exact_counts = λ n. [];
  log_audit = λ action actor n. n + 1;
}

restore-safe_example :
    ((e : Exception) × (restore live lib host (some upload) none true true true 5 ≡ (err e, 5)))
    ⊎ ((plan : RestorePlan) × IsLoadable lib plan
        × IsAllowed host plan
        × (restore live lib host (some upload) none true true true 5
            ≡ applied live host none true true true plan 5))
restore-safe_example = restore-safe live lib host (some upload) none true true true 5
