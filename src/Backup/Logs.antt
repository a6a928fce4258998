-- ===== src/Backup/Logs.antt =====
-- `BackupLog` of app/db/models.py and `BackupRepository` of app/repositories/repositories.py: the
-- history of backups.
use planmaker.Common.{
  ℕ, ◌+◌, max, Bool, true, false, ◌&&◌, ◌||◌, Option, none, some, List, [], ◌∷◌, ltb, ◌==◌,
  if◌then◌else◌, take, select, length,
}
use planmaker.Common.Text.{Text}
use planmaker.Database.{Time}
use planmaker.Backup.Row.{or_none}

pub data BackupStatus : Type 0 where
  ok failed : BackupStatus

pub data Trigger : Type 0 where
  auto manual : Trigger

-- The arguments of `record`.
pub record Entry : Type 0 where
  pub status : BackupStatus
  pub trigger : Trigger
  pub filename : Option Text
  pub path : Option Text
  pub size_bytes : ℕ
  pub tables : ℕ
  pub rows : ℕ
  pub engine : Option Text
  pub duration_ms : ℕ
  pub recipients : Option Text
  pub delivered : ℕ
  pub sha256 : Option Text
  pub error : Option Text
  pub created_by_id : Option ℕ

-- A row: the database sets `id` and `at`.
pub record BackupLog : Type 0 where
  pub id : ℕ
  pub at : Time
  pub entry : Entry

-- `(error or None) and str(error)[:2000]`
unfoldable pub cut_error : Option Text → Option Text
cut_error none = none
cut_error (some t) = or_none (take 2000 t)

unfoldable pub log_row : ℕ → Time → Entry → BackupLog
unfolding cut_error
log_row id at entry = record {
  id = id;
  at = at;
  entry = record entry { error = cut_error entry.error };
}

abbrev is_ok : BackupStatus → Bool
is_ok ok = true
is_ok failed = false

abbrev is_failed : BackupStatus → Bool
is_failed ok = false
is_failed failed = true

-- `order_by(at.desc(), id.desc())`
abbrev pub is_later : BackupLog → BackupLog → Bool
is_later a b = ltb b.at a.at || (a.at == b.at && ltb b.id a.id)

unfoldable pub insert_latest : BackupLog → List BackupLog → List BackupLog
insert_latest a [] = a ∷ []
insert_latest a (b ∷ bs) =
    let rest = insert_latest a bs in if is_later a b then a ∷ b ∷ bs else b ∷ rest

unfoldable pub latest_first : List BackupLog → List BackupLog
unfolding insert_latest
latest_first [] = []
latest_first (a ∷ rest) = insert_latest a (latest_first rest)

abbrev first : List BackupLog → Option BackupLog
first [] = none
first (a ∷ rest) = some a

unfoldable pub latest : Bool → List BackupLog → Option BackupLog
unfolding latest_first
latest only_ok logs =
    first (latest_first (if only_ok then select (λ a. is_ok a.entry.status) logs else logs))

unfoldable pub recent : ℕ → List BackupLog → List BackupLog
unfolding latest_first
recent limit logs = take (max 1 limit) (latest_first logs)

abbrev sum_sizes : List BackupLog → ℕ
sum_sizes [] = 0
sum_sizes (a ∷ rest) = a.entry.size_bytes + sum_sizes rest

pub record Stats : Type 0 where
  pub succeeded : ℕ
  pub bytes : ℕ
  pub failures : ℕ

unfoldable pub stats : List BackupLog → Stats
stats logs =
    let done = select (λ a. is_ok a.entry.status) logs in
    record {
      succeeded = length done;
      bytes = sum_sizes done;
      failures = length (select (λ a. is_failed a.entry.status) logs);
    }

unfoldable pub forget : ℕ → List BackupLog → List BackupLog
forget id logs = select (λ a. if a.id == id then false else true) logs
