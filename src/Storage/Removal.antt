-- ===== src/Storage/Removal.antt =====
-- What a removal of files leaves on the disk.
use planmaker.Common.{
  suc, ◌+◌, ◌≡◌, refl, ap, ◌∙◌, true, not, List, [], ◌∷◌, if◌then◌else◌, select, length, arith,
  Bool-cases, inl, inr,
}
use planmaker.Common.Text.{Text, text_eq, eq_of_text_eq}
use planmaker.Common.Settings.{Settings}
use planmaker.Database.{Db, PlanRow}
use planmaker.Database.Keeps.{Keeps}
use planmaker.Storage.{
  exists, unlink, remove_file, remove_files, remove_paths, remove_plan_files, add_plan,
}

-- The files outside the storage root, in the order of the disk.
abbrev pub outside : Settings → List Text → List Text
outside cfg disk = select (λ f. not (cfg.inside_root f)) disk

outside-unlink :
    (cfg : Settings) (path : Text) (disk : List Text)
    → cfg.inside_root path ≡ true
    → outside cfg (unlink path disk) ≡ outside cfg disk
outside-unlink cfg path [] h = refl
outside-unlink cfg path (f ∷ disk) h = elim (Bool-cases (text_eq f path)) [
  | inl same ↦
      let inside : cfg.inside_root f ≡ true = rw (eq_of_text_eq f path same) h in
      rw (same, inside) refl
  | inr other ↦
      rw other
        (ap (λ r. if not (cfg.inside_root f) then f ∷ r else r) (outside-unlink cfg path disk h))
]

length-unlink :
    (path : Text) (disk : List Text)
    → exists path disk ≡ true
    → suc (length (unlink path disk)) ≡ length disk
length-unlink path [] h = cc
length-unlink path (f ∷ disk) h = elim (Bool-cases (text_eq f path)) [
  | inl same ↦ rw same refl
  | inr other ↦ rw other (ap suc (length-unlink path disk (rw other at h)))
]

remove_file-outside :
    (cfg : Settings) (raw : Text) (disk : List Text)
    → outside cfg (remove_file cfg raw disk).1 ≡ outside cfg disk
remove_file-outside cfg raw disk = elim (Bool-cases (cfg.inside_root (cfg.resolve raw))) [
  | inr beyond ↦ rw beyond refl
  | inl within ↦ elim (Bool-cases (exists (cfg.resolve raw) disk)) [
    | inl there ↦ rw (within, there) (outside-unlink cfg (cfg.resolve raw) disk within)
    | inr missing ↦ rw (within, missing) refl
  ]
]

remove_file-count :
    (cfg : Settings) (raw : Text) (disk : List Text)
    → (remove_file cfg raw disk).0 + length (remove_file cfg raw disk).1 ≡ length disk
remove_file-count cfg raw disk = elim (Bool-cases (cfg.inside_root (cfg.resolve raw))) [
  | inr beyond ↦ rw beyond (omega arith)
  | inl within ↦ elim (Bool-cases (exists (cfg.resolve raw) disk)) [
    | inl there ↦ rw (within, there) (omega (arith, length-unlink (cfg.resolve raw) disk there))
    | inr missing ↦ rw (within, missing) (omega arith)
  ]
]

-- Whatever paths a removal is given, the files outside the storage root stay, all of them, and the
-- number that it reports is the number of files that are gone.
pub remove_files_lem :
    (cfg : Settings) (paths disk : List Text)
    → (outside cfg (remove_files cfg paths disk).1 ≡ outside cfg disk)
      × ((remove_files cfg paths disk).0 + length (remove_files cfg paths disk).1 ≡ length disk)
unfolding remove_files
remove_files_lem cfg [] disk = (refl, omega arith)
remove_files_lem cfg (raw ∷ paths) disk =
    let left = (remove_file cfg raw disk).1 in
    let (kept, counted) = remove_files_lem cfg paths left in
    (
      kept ∙ remove_file-outside cfg raw disk,
      omega (arith, counted, remove_file-count cfg raw disk),
    )

abbrev pub outside_files : Settings → Db → List Text
outside_files cfg db = outside cfg db.disk

pub remove_paths-outside :
    (cfg : Settings) (paths : List Text) → Keeps (outside_files cfg) (remove_paths cfg paths)
unfolding remove_paths
remove_paths-outside cfg paths = record { at = λ db. (remove_files_lem cfg paths db.disk).0 }

pub remove_plan_files-outside :
    (cfg : Settings) (p : PlanRow) → Keeps (outside_files cfg) (remove_plan_files cfg p)
unfolding remove_plan_files
remove_plan_files-outside cfg p = remove_paths-outside cfg (add_plan p [])
