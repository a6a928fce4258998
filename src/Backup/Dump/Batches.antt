-- ===== src/Backup/Dump/Batches.antt =====
-- The chunks of the dump hold every row once, in order, and are bounded.
use planmaker.Common.{
  ℕ, ◌+◌, ◌≤◌, ◌≡◌, refl, ◌⊎◌, inl, inr, true, false, List, [], ◌∷◌, ◌++◌, arith, length, All,
  Bool-cases, length-append,
}
use mathlib.Core.List.{append_assoc}
use planmaker.Common.Text.{Text}
use planmaker.Backup.Dump.{insert_batch_rows, insert_batch_bytes, is_full, batches}

abbrev pub concat : List (List Text) → List Text
concat [] = []
concat (c ∷ cs) = c ++ concat cs

-- The characters of a chunk's rows.
abbrev pub size : List Text → ℕ
size [] = 0
size (t ∷ ts) = length t + size ts

-- A chunk that may be written: some rows and at most a hundred, and within the limit on
-- characters unless it is a single row.
abbrev pub IsChunk : List Text → Type 0
IsChunk chunk =
    (1 ≤ length chunk)
    × (length chunk ≤ insert_batch_rows)
    × ((length chunk ≡ 1) ⊎ (size chunk ≤ insert_batch_bytes))

concat-batches_from :
    (rows chunk : List Text) (n : ℕ) → concat (batches chunk n rows) ≡ chunk ++ rows
unfolding batches
concat-batches_from [] [] n = refl
concat-batches_from [] (c ∷ chunk) n = refl
concat-batches_from (values ∷ rows) chunk n = elim (Bool-cases (is_full chunk n values)) [
  | inl full ↦ rw full (rw (concat-batches_from rows (values ∷ []) (length values + 2)) refl)
  | inr fits ↦ rw fits (
      rw (concat-batches_from rows (chunk ++ values ∷ []) _)
        (append_assoc chunk (values ∷ []) rows))
]

size-append : (xs ys : List Text) → size (xs ++ ys) ≡ size xs + size ys
size-append [] ys = omega arith
size-append (x ∷ xs) ys = omega (arith, size-append xs ys)

-- The chunk that is being filled, and its counter.
abbrev IsOpen : List Text → ℕ → Type 0
IsOpen chunk n = ((chunk ≡ []) ⊎ IsChunk chunk) × (size chunk ≤ n)

IsOpen-one : (values : Text) → IsOpen (values ∷ []) (length values + 2)
IsOpen-one values = (inr (omega arith, omega arith, inl refl), omega arith)

IsOpen-add :
    (chunk : List Text) (n : ℕ) (values : Text)
    → IsOpen chunk n
    → is_full chunk n values ≡ false
    → IsOpen (chunk ++ values ∷ []) (n + (length values + 2))
IsOpen-add [] n values h fits = (inr (omega arith, omega arith, inl refl), omega arith)
IsOpen-add (c ∷ chunk) n values h fits = (
  inr (
    omega (arith, length-append chunk (values ∷ [])),
    ground (arith, fits, length-append chunk (values ∷ [])),
    inr (ground (arith, fits, h, size-append chunk (values ∷ []))),
  ),
  ground (arith, h, size-append chunk (values ∷ [])),
)

is_full-IsChunk :
    (chunk : List Text) (n : ℕ) (values : Text)
    → IsOpen chunk n
    → is_full chunk n values ≡ true
    → IsChunk chunk
is_full-IsChunk [] n values h full = cc
is_full-IsChunk (c ∷ chunk) n values h full = elim (h.0) [ inl e ↦ cc | inr k ↦ k ]

batches-IsChunk :
    (rows chunk : List Text) (n : ℕ) → IsOpen chunk n → All IsChunk (batches chunk n rows)
unfolding batches
batches-IsChunk [] [] n h = tt
batches-IsChunk [] (c ∷ chunk) n h = elim (h.0) [ inl e ↦ cc | inr k ↦ (k, tt) ]
batches-IsChunk (values ∷ rows) chunk n h = elim (Bool-cases (is_full chunk n values)) [
  | inl full ↦ rw full (
    is_full-IsChunk chunk n values h full,
    batches-IsChunk rows (values ∷ []) (length values + 2) (IsOpen-one values),
  )
  | inr fits ↦ rw fits (
      batches-IsChunk rows (chunk ++ values ∷ []) (n + (length values + 2))
        (IsOpen-add chunk n values h fits))
]

-- The INSERT statements of a table hold each of its rows once and in order, and every statement
-- has between one and a hundred rows, which stay within the limit on characters unless the
-- statement is a single row.
pub batches_complete :
    (rows : List Text) → (concat (batches [] 0 rows) ≡ rows) × All IsChunk (batches [] 0 rows)
batches_complete rows =
    (concat-batches_from rows [] 0, batches-IsChunk rows [] 0 (inl refl, omega arith))
