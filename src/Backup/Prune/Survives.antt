-- ===== src/Backup/Prune/Survives.antt =====
-- app/services/backup.py, `prune_backups`: the archive that was just written.
use planmaker.Common.{
  ℕ, zero, suc, ◌-◌, ◌<◌, ◌≡◌, refl, ap, ◌∙◌, max, Bool, false, not, List, [], ◌∷◌, ◌++◌, drop,
  select, All, arith, All-select, All-imp,
}
use planmaker.Common.Text.{Text, text_eq}
use planmaker.Backup.Prune.{
  Archive, BackupDir, insert_newest, newest_first, stale_archives, is_among, prune_backups,
}
use planmaker.Backup.Prune.Newest.{All-newest_first, All-drop}

-- The new archive is later than the others, and none of them has its path.
abbrev pub IsFresh : List Archive → Archive → Type 0
IsFresh olds a = All (λ b. (b.mtime < a.mtime) × (text_eq b.path a.path ≡ false)) olds

insert_newest-older :
    (a b : Archive) (bs : List Archive)
    → b.mtime < a.mtime
    → insert_newest b (a ∷ bs) ≡ a ∷ insert_newest b bs
unfolding insert_newest
insert_newest-older a b bs older = ground (arith, older)

newest_first-last :
    (a : Archive) (olds : List Archive)
    → IsFresh olds a
    → newest_first (olds ++ a ∷ []) ≡ a ∷ newest_first olds
unfolding newest_first insert_newest
newest_first-last a [] h = refl
newest_first-last a (b ∷ bs) h =
    rw (newest_first-last a bs h.1) (insert_newest-older a b (newest_first bs) h.0.0)

drop-first :
    (keep : ℕ) (a : Archive) (rest : List Archive)
    → drop (max 1 keep) (a ∷ rest) ≡ drop (keep - 1) rest
drop-first zero a rest = refl
drop-first (suc keep) a rest =
    ap (λ n. drop n (a ∷ rest)) {x = max 1 (suc keep)} {y = suc keep} (omega arith)
    ∙ ap (λ n. drop n rest) {x = keep} {y = suc keep - 1} (omega arith)

is_among-false :
    (a : Archive) (removed : List Archive)
    → All (λ b. text_eq b.path a.path ≡ false) removed
    → is_among removed a ≡ false
is_among-false a [] h = refl
is_among-false a (b ∷ bs) h = ground (arith, h.0, is_among-false a bs h.1)

select-append :
    (p : Archive → Bool) (xs ys : List Archive) → select p (xs ++ ys) ≡ select p xs ++ select p ys
select-append p [] ys = refl
select-append p (x ∷ xs) ys = ground (arith, select-append p xs ys)

stale_archives-fresh :
    (deletable : Text → Bool) (keep : ℕ) (olds : List Archive) (a : Archive)
    → IsFresh olds a
    → is_among (stale_archives deletable keep (olds ++ a ∷ [])) a ≡ false
unfolding stale_archives
stale_archives-fresh deletable keep olds a fresh = rw (newest_first-last a olds fresh) (
    rw (drop-first keep a (newest_first olds)) (
      is_among-false a _ (
        All-select _ _ _ (
          All-drop _ (keep - 1) (newest_first olds)
            (All-newest_first _ olds (All-imp _ _ olds (λ b h. h.1) fresh))))))

-- The retention never removes the archive that was just written, whatever number of archives is
-- to be kept and whichever files can be deleted, if it is later than the other archives.
pub prune_backups-fresh :
    (deletable : Text → Bool) (keep : ℕ) (dir : BackupDir) (olds : List Archive) (a : Archive)
    → dir.archives ≡ olds ++ a ∷ []
    → IsFresh olds a
    → (kept : List Archive) × ((prune_backups deletable keep dir).1.archives ≡ kept ++ a ∷ [])
unfolding prune_backups
prune_backups-fresh deletable keep dir olds a shape fresh =
    let gone = stale_archives deletable keep (olds ++ a ∷ []) in
    let keeps : Archive → Bool = λ b. not (is_among gone b) in
    (
      select keeps olds,
      rw shape (
          select-append keeps olds (a ∷ [])
          ∙ rw (stale_archives-fresh deletable keep olds a fresh) refl),
    )
