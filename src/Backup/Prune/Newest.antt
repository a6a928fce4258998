-- ===== src/Backup/Prune/Newest.antt =====
-- app/services/backup.py, `prune_backups`: what the retention keeps.
use planmaker.Common.{
  ℕ, zero, suc, ◌-◌, ◌≤◌, ◌≡◌, refl, ap, inl, inr, max, Bool, true, List, [], ◌∷◌, leb, drop, take,
  select, All, arith, Bool-cases, length, length-drop, All-imp,
}
use planmaker.Common.Text.{Text}
use planmaker.Backup.Prune.{Archive, insert_newest, newest_first, stale_archives}

All-insert_newest :
    (P : Archive → Type 0) (a : Archive) (olds : List Archive)
    → P a
    → All P olds
    → All P (insert_newest a olds)
unfolding insert_newest
All-insert_newest P a [] h k = (h, tt)
All-insert_newest P a (b ∷ bs) h k = elim (Bool-cases (leb b.mtime a.mtime)) [
  | inl newer ↦ rw newer (h, (k.0, k.1))
  | inr older ↦ rw older (k.0, All-insert_newest P a bs h k.1)
]

pub All-newest_first :
    (P : Archive → Type 0) (olds : List Archive) → All P olds → All P (newest_first olds)
unfolding newest_first
All-newest_first P [] k = tt
All-newest_first P (a ∷ olds) k =
    All-insert_newest P a (newest_first olds) k.0 (All-newest_first P olds k.1)

length-insert_newest :
    (a : Archive) (olds : List Archive) → length (insert_newest a olds) ≡ suc (length olds)
unfolding insert_newest
length-insert_newest a [] = refl
length-insert_newest a (b ∷ bs) = ground (arith, length-insert_newest a bs)

length-newest_first : (olds : List Archive) → length (newest_first olds) ≡ length olds
unfolding newest_first
length-newest_first [] = refl
length-newest_first (a ∷ olds) =
    omega (arith, length-insert_newest a (newest_first olds), length-newest_first olds)

-- Newest first.
abbrev IsSorted : List Archive → Type 0
IsSorted [] = Unit
IsSorted (a ∷ olds) = All (λ b. b.mtime ≤ a.mtime) olds × IsSorted olds

insert_newest-IsSorted :
    (a : Archive) (olds : List Archive) → IsSorted olds → IsSorted (insert_newest a olds)
unfolding insert_newest
insert_newest-IsSorted a [] h = (tt, tt)
insert_newest-IsSorted a (b ∷ bs) h = elim (Bool-cases (leb b.mtime a.mtime)) [
  | inl newer ↦ rw newer (
    (
      ground (arith, newer),
      All-imp (λ c. c.mtime ≤ b.mtime) (λ c. c.mtime ≤ a.mtime) bs (λ c k. ground (arith, k, newer))
          h.0,
    ),
    h,
  )
  | inr older ↦ rw older (
    All-insert_newest (λ c. c.mtime ≤ b.mtime) a bs (ground (arith, older)) h.0,
    insert_newest-IsSorted a bs h.1,
  )
]

newest_first-IsSorted : (olds : List Archive) → IsSorted (newest_first olds)
unfolding newest_first
newest_first-IsSorted [] = tt
newest_first-IsSorted (a ∷ olds) =
    insert_newest-IsSorted a (newest_first olds) (newest_first-IsSorted olds)

pub All-drop :
    (P : Archive → Type 0) (n : ℕ) (olds : List Archive) → All P olds → All P (drop n olds)
All-drop P zero olds h = h
All-drop P (suc n) [] h = tt
All-drop P (suc n) (a ∷ olds) h = All-drop P n olds h.1

All-always : {P : Archive → Type 0} (olds : List Archive) → ((a : Archive) → P a) → All P olds
All-always [] f = tt
All-always (a ∷ olds) f = (f a, All-always olds f)

All-both :
    (P Q : Archive → Type 0) (olds : List Archive)
    → All P olds
    → All Q olds
    → All (λ a. P a × Q a) olds
All-both P Q [] h k = tt
All-both P Q (a ∷ olds) h k = ((h.0, k.0), All-both P Q olds h.1 k.1)

-- An archive is no newer than any of the others.
abbrev pub IsOldest : List Archive → Archive → Type 0
IsOldest others r = All (λ k. r.mtime ≤ k.mtime) others

drop-IsOldest :
    (n : ℕ) (olds : List Archive) → IsSorted olds → All (IsOldest (take n olds)) (drop n olds)
drop-IsOldest zero olds h = All-always olds (λ a. tt)
drop-IsOldest (suc n) [] h = tt
drop-IsOldest (suc n) (a ∷ olds) h =
    All-both _ _ (drop n olds) (All-drop _ n olds h.0) (drop-IsOldest n olds h.1)

select-all :
    (p : Archive → Bool) (olds : List Archive) → ((a : Archive) → p a ≡ true) → select p olds ≡ olds
select-all p [] f = refl
select-all p (a ∷ olds) f = rw (f a) (ap (λ r. a ∷ r) (select-all p olds f))

-- When every file can be deleted, all archives but the `keep` newest are removed (at least one is
-- kept), and each removed archive is no newer than any that is kept.
pub stale_archives-IsOldest :
    (deletable : Text → Bool) (keep : ℕ) (archives : List Archive)
    → ((path : Text) → deletable path ≡ true)
    → (length (stale_archives deletable keep archives) ≡ length archives - max 1 keep)
      × All
          (IsOldest (take (max 1 keep) (newest_first archives)))
          (stale_archives deletable keep archives)
unfolding stale_archives
stale_archives-IsOldest deletable keep archives free =
    let sorted = newest_first archives in
    let stale = drop (max 1 keep) sorted in
    rw (select-all (λ a. deletable a.path) stale (λ a. free a.path)) (
      omega (arith, length-drop (max 1 keep) sorted, length-newest_first archives),
      drop-IsOldest (max 1 keep) sorted (newest_first-IsSorted archives),
    )
