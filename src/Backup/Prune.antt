-- ===== src/Backup/Prune.antt =====
-- app/services/backup.py: `prune_backups`, the retention of archives on disk.
pub mod Newest
pub mod Survives
use planmaker.Common.{ℕ, ◌≤◌, max, Bool, not, List, [], ◌∷◌, leb, if◌then◌else◌, drop, select, any}
use planmaker.Common.Text.{Text, text_eq}
use planmaker.Database.{Time}

-- A file that the pattern of archive names matches.
pub record Archive : Type 0 where
  pub path : Text
  pub mtime : Time

-- The backup directory: its archives, in the order of `glob`, and the `*.tmp` entries.
pub record BackupDir : Type 0 where
  pub archives : List Archive
  pub temporary : List Text

-- `sorted(…, key=mtime, reverse=True)`: archives of the same time keep their order.
unfoldable pub insert_newest : Archive → List Archive → List Archive
insert_newest a [] = a ∷ []
insert_newest a (b ∷ bs) =
    let rest = insert_newest a bs in if leb b.mtime a.mtime then a ∷ b ∷ bs else b ∷ rest

unfoldable pub newest_first : List Archive → List Archive
unfolding insert_newest
newest_first [] = []
newest_first (a ∷ rest) = insert_newest a (newest_first rest)

-- The archives that are removed: `unlink` fails for those that are not `deletable`.
unfoldable pub stale_archives : (Text → Bool) → ℕ → List Archive → List Archive
unfolding newest_first
stale_archives deletable keep archives =
    select (λ a. deletable a.path) (drop (max 1 keep) (newest_first archives))

abbrev pub is_among : List Archive → Archive → Bool
is_among removed a = any (λ r. text_eq r.path a.path) removed

unfoldable pub prune_backups : (Text → Bool) → ℕ → BackupDir → List Archive × BackupDir
unfolding stale_archives
prune_backups deletable keep dir =
    let removed = stale_archives deletable keep dir.archives in
    (
      removed,
      record {
        archives = select (λ a. not (is_among removed a)) dir.archives;
        temporary = select (λ t. not (deletable t)) dir.temporary;
      },
    )
