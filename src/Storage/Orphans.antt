-- ===== src/Storage/Orphans.antt =====
-- app/services/admin_service.py, `storage_report` and `delete_orphans`: the generated files that no
-- row of the tables points at.
--
-- A Python set is a list here: only membership is asked.
pub mod Unreferenced
use planmaker.Common.{
  ℕ, ◌+◌, Bool, true, false, not, ◌||◌, Option, none, some, List, [], ◌∷◌, ◌++◌, map, if◌then◌else◌,
  select, length,
}
use planmaker.Common.Settings.{Settings}
use planmaker.Common.Text.{Text, is_empty, text_eq}
use planmaker.Database.{Db, FileRow, PlanRow}
use planmaker.Storage.{exists}

pub data Suffix : Type 0 where
  png pdf other : Suffix

-- A file under the root, as `rglob` yields it.
pub record DiskFile : Type 0 where
  pub path : Text
  pub suffix : Suffix
  pub size : ℕ

pub record StorageReport : Type 0 where
  pub png : ℕ
  pub pdf : ℕ
  pub total_bytes : ℕ
  pub orphans : List DiskFile

-- The paths of one optional column, without the empty ones.
abbrev pub column : {R : Type 0} → (R → Option Text) → List R → List Text
column get [] = []
column get (r ∷ rs) = elim (get r) [
  | none ↦ column get rs
  | some p ↦ if is_empty p then column get rs else p ∷ column get rs
]

abbrev pub all_files : List PlanRow → List FileRow
all_files [] = []
all_files (p ∷ ps) = p.files ++ all_files ps

-- The resolved paths of the four columns.
unfoldable pub known_paths : Settings → Db → List Text
known_paths cfg db = map cfg.resolve (
    column (λ p. p.image_path) db.plans
    ++ (column (λ p. p.pdf_path) db.plans
        ++ (column (λ f. some f.image_path) (all_files db.plans)
            ++ column (λ f. some f.pdf_path) (all_files db.plans))))

abbrev pub is_known : Settings → List Text → DiskFile → Bool
is_known cfg known file = exists (cfg.resolve file.path) known

abbrev add_size : Settings → List Text → DiskFile → StorageReport → StorageReport
add_size cfg known file report = record report {
  total_bytes = report.total_bytes + file.size;
  orphans = if is_known cfg known file then report.orphans else report.orphans ++ file ∷ [];
}

abbrev pub add_file : Settings → List Text → StorageReport → DiskFile → Suffix → StorageReport
add_file cfg known report file png =
    add_size cfg known file (record report { png = report.png + 1 })
add_file cfg known report file pdf =
    add_size cfg known file (record report { pdf = report.pdf + 1 })
add_file cfg known report file other = report

-- The loop over the files.
unfoldable pub count_files : Settings → List Text → StorageReport → List DiskFile → StorageReport
count_files cfg known report [] = report
count_files cfg known report (file ∷ files) =
    count_files cfg known (add_file cfg known report file file.suffix) files

abbrev pub empty_report : StorageReport
empty_report = record { png = 0; pdf = 0; total_bytes = 0; orphans = [] }

-- `storage_report`, of the files under the root; none when the root does not exist.
unfoldable pub storage_report : Settings → Db → List DiskFile → StorageReport
unfolding known_paths count_files
storage_report cfg db files = count_files cfg (known_paths cfg db) empty_report files

-- `unlink` of each orphan, which fails for those that are not `deletable`.
unfoldable pub unlink_all : (DiskFile → Bool) → List DiskFile → List DiskFile → ℕ × List DiskFile
unlink_all deletable [] files = (0, files)
unlink_all deletable (orphan ∷ orphans) files =
    let (more, rest) =
      unlink_all deletable orphans (
        if deletable orphan then select (λ f. not (text_eq f.path orphan.path)) files else files) in
    ((if deletable orphan then 1 else 0) + more, rest)

-- The number of removed files, and the files that are left.
unfoldable pub delete_orphans :
    Settings → (DiskFile → Bool) → Db → List DiskFile → ℕ × List DiskFile
unfolding storage_report unlink_all
delete_orphans cfg deletable db files =
    unlink_all deletable (storage_report cfg db files).orphans files
