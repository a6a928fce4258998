-- ===== src/Storage.antt =====
-- app/services/plan_manager.py, remove_plan_files, and app/services/deletion.py, _files_of_plans
-- and _remove_files: the generated files of plans, and their removal from the disk.
--
-- A Python set of paths is a list without its repeats, in the order of the insertions. What a
-- path resolves to, and whether that is inside the storage root, are the settings'. Errors of the
-- operating system other than a missing file are not modelled.
pub mod Orphans
pub mod Removal
use planmaker.Common.{
  ℕ, zero, suc, ◌+◌, Bool, true, false, not, ◌&&◌, ◌||◌, Option, none, some, List, [], ◌∷◌, ◌++◌,
  map, if◌then◌else◌, select, any, length,
}
use planmaker.Common.Text.{Text, is_empty, text_eq}
use planmaker.Common.Settings.{Settings}
use planmaker.Database.{Db, FileRow, PlanRow}
use planmaker.Common.Result.{Result}
use planmaker.Database.Action.{Action}

abbrev pub exists : Text → List Text → Bool
exists path disk = any (λ f. text_eq f path) disk

abbrev pub add_path : Text → List Text → List Text
add_path p ps = if exists p ps then ps else ps ++ p ∷ []

-- `if p` for an optional path.
abbrev pub add_if : Option Text → List Text → List Text
add_if none ps = ps
add_if (some p) ps = if is_empty p then ps else add_path p ps

abbrev pub add_files : List FileRow → List Text → List Text
add_files [] ps = ps
add_files (f ∷ fs) ps = add_files fs (add_path f.pdf_path (add_path f.image_path ps))

abbrev pub add_plan : PlanRow → List Text → List Text
add_plan p ps = add_files p.files (add_if p.pdf_path (add_if p.image_path ps))

-- `_files_of_plans`
unfoldable pub files_of_plans : List PlanRow → List Text → List Text
files_of_plans [] ps = ps
files_of_plans (p ∷ plans) ps = files_of_plans plans (add_plan p ps)

-- `path.unlink()` of a file that is there.
abbrev pub unlink : Text → List Text → List Text
unlink path [] = []
unlink path (f ∷ disk) = if text_eq f path then disk else f ∷ unlink path disk

-- One path: refused outside the root, skipped when it is missing, removed otherwise.
abbrev pub remove_file : Settings → Text → List Text → ℕ × List Text
remove_file cfg raw disk =
    if not (cfg.inside_root (cfg.resolve raw))
    then (0, disk)
    else if exists (cfg.resolve raw) disk
    then (1, unlink (cfg.resolve raw) disk)
    else (0, disk)

-- How many files went, and what is left.
unfoldable pub remove_files : Settings → List Text → List Text → ℕ × List Text
remove_files cfg [] disk = (0, disk)
remove_files cfg (raw ∷ paths) disk =
    let (removed, left) = remove_file cfg raw disk in
    let (more, rest) = remove_files cfg paths left in (removed + more, rest)

-- The removal as a step of a service: `_remove_files(paths)`.
unfoldable pub remove_paths : Settings → List Text → Action ℕ
remove_paths cfg paths db =
    let (removed, disk) = remove_files cfg paths db.disk in
    (Result.ok removed, record db { disk = disk })

-- `remove_plan_files(plan)`
unfoldable pub remove_plan_files : Settings → PlanRow → Action ℕ
remove_plan_files cfg p = remove_paths cfg (add_plan p [])
