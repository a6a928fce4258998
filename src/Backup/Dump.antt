-- ===== src/Backup/Dump.antt =====
-- app/services/backup.py, `python_dump`: the rows of one table, written as INSERT statements.
--
-- Reflection, the DDL and the other members of the archive are not modelled; the head of the
-- statements, which SQLAlchemy quotes, is an argument.
pub mod Batches
use planmaker.Common.{
  ℕ, ◌+◌, ◌≤◌, Bool, true, false, not, ◌&&◌, ◌||◌, List, [], ◌∷◌, ◌++◌, map, ltb, leb, ◌==◌,
  if◌then◌else◌, length,
}
use planmaker.Common.Text.{Text, codes, join, is_empty}
use planmaker.Backup.Literal.{Value, sql_literal}

-- INSERT_BATCH_ROWS and _INSERT_BATCH_BYTES
abbrev pub insert_batch_rows : ℕ
insert_batch_rows = 100

abbrev pub insert_batch_bytes : ℕ
insert_batch_bytes = 180000

-- `"(" + ", ".join(sql_literal(row.get(c)) for c in columns) + ")"`, for the row's values
unfoldable pub row_values : List Value → Text
unfolding sql_literal join
row_values row = codes "(" ++ (join (codes ", ") (map sql_literal row) ++ codes ")")

-- The test before a row is added: the chunk is written out first.
abbrev pub is_full : List Text → ℕ → Text → Bool
is_full chunk chunk_bytes values =
    not (is_empty chunk)
    && (leb insert_batch_rows (length chunk)
        || ltb insert_batch_bytes (chunk_bytes + length values))

-- The loop over the rows: the chunks that become statements.
unfoldable pub batches : List Text → ℕ → List Text → List (List Text)
batches chunk chunk_bytes [] = if is_empty chunk then [] else chunk ∷ []
batches chunk chunk_bytes (values ∷ rows) =
    let full = is_full chunk chunk_bytes values in
    let rest =
      batches (if full then values ∷ [] else chunk ++ values ∷ [])
        (if full then length values + 2 else chunk_bytes + (length values + 2)) rows in
    if full then chunk ∷ rest else rest

-- `statement_head + ",\n".join(chunk) + ";"`
unfoldable pub statement : Text → List Text → Text
unfolding join
statement head chunk = head ++ (join (codes ",\n") chunk ++ codes ";")

unfoldable pub insert_statements : Text → List (List Value) → List Text
unfolding batches statement row_values
insert_statements head rows = map (statement head) (batches [] 0 (map row_values rows))
