-- ===== src/Storage/Orphans/Unreferenced.antt =====
-- app/services/admin_service.py: what the cleanup of the storage removes.
use planmaker.Common.{
  ℕ, ◌+◌, ◌≡◌, refl, sym, ap, ◌∙◌, Bool, true, false, not, ◌&&◌, ◌||◌, Option, none, some, any, map,
  List, [], ◌∷◌, ◌++◌, if◌then◌else◌, select, All, arith, length, Bool-cases, inl, inr,
}
use mathlib.Core.List.{append_assoc, append-nil}
use planmaker.Common.Settings.{Settings}
use planmaker.Common.Text.{Text, is_empty, text_eq, eq_of_text_eq}
use planmaker.Database.{Db, FileRow, PlanRow}
use planmaker.Storage.{exists}
use planmaker.Storage.Orphans.{
  column, all_files, DiskFile, Suffix, png, pdf, other, StorageReport, known_paths, is_known,
  add_file, count_files, storage_report, unlink_all, delete_orphans, empty_report,
}

abbrev pub is_artifact : Suffix → Bool
is_artifact other = false
is_artifact _ = true

-- A path of a row that is not empty and leads to a file.
abbrev pub leads_to : Settings → DiskFile → Text → Bool
leads_to cfg file path = not (is_empty path) && text_eq (cfg.resolve path) (cfg.resolve file.path)

abbrev pub may_lead_to : Settings → DiskFile → Option Text → Bool
may_lead_to cfg file none = false
may_lead_to cfg file (some path) = leads_to cfg file path

-- The plan, or one of its generated versions, points at the file.
abbrev pub plan_points_at : Settings → DiskFile → PlanRow → Bool
plan_points_at cfg file p =
    may_lead_to cfg file p.image_path
    || (may_lead_to cfg file p.pdf_path
        || any (λ (v : FileRow). leads_to cfg file v.image_path || leads_to cfg file v.pdf_path)
            p.files)

-- Some row of the tables points at the file.
abbrev pub is_referenced : Settings → Db → DiskFile → Bool
is_referenced cfg db file = any (plan_points_at cfg file) db.plans

exists-column :
    {R : Type 0}
    → (cfg : Settings) (file : DiskFile) (get : R → Option Text) (rows : List R)
    → exists (cfg.resolve file.path) (map cfg.resolve (column get rows))
      ≡ any (λ r. may_lead_to cfg file (get r)) rows
exists-column cfg file get [] = refl
exists-column cfg file get (r ∷ rows) =
    by_path (get r) ∙ ap (λ b. may_lead_to cfg file (get r) || b) (exists-column cfg file get rows)
  where
    by_path :
        (o : Option Text)
        → exists (cfg.resolve file.path) (
            map cfg.resolve (elim o as (λ _. List Text) [
              | none ↦ column get rows
              | some p ↦ if is_empty p then column get rows else p ∷ column get rows
            ]))
          ≡ (may_lead_to cfg file o
              || exists (cfg.resolve file.path) (map cfg.resolve (column get rows)))
    by_path none = refl
    by_path (some p) = elim (Bool-cases (is_empty p)) [
      | inl blank ↦ rw blank refl
      | inr named ↦ rw named refl
    ]

exists-append : (x : Text) (xs ys : List Text) → exists x (xs ++ ys) ≡ (exists x xs || exists x ys)
exists-append x [] ys = refl
exists-append x (z ∷ xs) ys = ground (arith, exists-append x xs ys)

map-append : (f : Text → Text) (xs ys : List Text) → map f (xs ++ ys) ≡ map f xs ++ map f ys
map-append f [] ys = refl
map-append f (x ∷ xs) ys = ap (λ r. f x ∷ r) (map-append f xs ys)

exists-resolved :
    (cfg : Settings) (x : Text) (xs ys : List Text)
    → exists x (map cfg.resolve (xs ++ ys))
      ≡ (exists x (map cfg.resolve xs) || exists x (map cfg.resolve ys))
exists-resolved cfg x xs ys =
    ap (exists x) (map-append cfg.resolve xs ys)
    ∙ exists-append x (map cfg.resolve xs) (map cfg.resolve ys)

any-append {ℓ} :
    {A : Type ℓ} → (p : A → Bool) (xs ys : List A) → any p (xs ++ ys) ≡ (any p xs || any p ys)
any-append p [] ys = refl
any-append p (x ∷ xs) ys = ground (arith, any-append p xs ys)

any-or {ℓ} :
    {A : Type ℓ}
    → (p q : A → Bool) (xs : List A) → (any p xs || any q xs) ≡ any (λ x. p x || q x) xs
any-or p q [] = refl
any-or p q (x ∷ xs) = ground (arith, any-or p q xs)

any-all_files :
    (q : FileRow → Bool) (ps : List PlanRow) → any q (all_files ps) ≡ any (λ p. any q p.files) ps
any-all_files q [] = refl
any-all_files q (p ∷ ps) =
    any-append q p.files (all_files ps) ∙ ap (λ b. any q p.files || b) (any-all_files q ps)

-- The paths that the code collects are those that a row points at.
is_known-is_referenced :
    (cfg : Settings) (db : Db) (file : DiskFile)
    → is_known cfg (known_paths cfg db) file ≡ is_referenced cfg db file
unfolding known_paths
is_known-is_referenced cfg db file =
    let image : PlanRow → Bool = λ p. may_lead_to cfg file p.image_path in
    let document : PlanRow → Bool = λ p. may_lead_to cfg file p.pdf_path in
    let version : FileRow → Bool =
      λ v. leads_to cfg file v.image_path || leads_to cfg file v.pdf_path in
    let versions : PlanRow → Bool = λ p. any version p.files in
    four_columns cfg file db.plans
    ∙ ap (λ b. any image db.plans || (any document db.plans || b))
        (any-or (λ v. leads_to cfg file v.image_path) (λ v. leads_to cfg file v.pdf_path)
            (all_files db.plans)
          ∙ any-all_files version db.plans)
    ∙ ap (λ b. any image db.plans || b) (any-or document versions db.plans)
    ∙ any-or image (λ p. document p || versions p) db.plans
  where
    four_columns :
        (cfg : Settings) (file : DiskFile) (ps : List PlanRow)
        → exists (cfg.resolve file.path) (
            map cfg.resolve (
              column (λ p. p.image_path) ps
              ++ (column (λ p. p.pdf_path) ps
                  ++ (column (λ f. some f.image_path) (all_files ps)
                      ++ column (λ f. some f.pdf_path) (all_files ps)))))
          ≡ (any (λ p. may_lead_to cfg file p.image_path) ps
              || (any (λ p. may_lead_to cfg file p.pdf_path) ps
                  || (any (λ f. leads_to cfg file f.image_path) (all_files ps)
                      || any (λ f. leads_to cfg file f.pdf_path) (all_files ps))))
    four_columns cfg file ps =
        rw
          (
            exists-resolved, exists-resolved, exists-resolved, exists-column, exists-column,
            exists-column, exists-column,
          )
          refl

-- A generated file that the code does not find among its paths.
abbrev is_unlisted : Settings → Db → DiskFile → Bool
is_unlisted cfg db file = is_artifact file.suffix && not (is_known cfg (known_paths cfg db) file)

abbrev pub total_size : List DiskFile → ℕ
total_size [] = 0
total_size (f ∷ fs) = f.size + total_size fs

-- The report without the loop.
abbrev pub is_png : DiskFile → Bool
is_png file = elim (file.suffix) [ png ↦ true | _ ↦ false ]

abbrev pub is_pdf : DiskFile → Bool
is_pdf file = elim (file.suffix) [ pdf ↦ true | _ ↦ false ]

abbrev listed_report : Settings → Db → List DiskFile → StorageReport
listed_report cfg db files = record {
  png = length (select is_png files);
  pdf = length (select is_pdf files);
  total_bytes = total_size (select (λ f. is_artifact f.suffix) files);
  orphans = select (is_unlisted cfg db) files;
}

abbrev plus : StorageReport → StorageReport → StorageReport
plus r s = record {
  png = r.png + s.png;
  pdf = r.pdf + s.pdf;
  total_bytes = r.total_bytes + s.total_bytes;
  orphans = r.orphans ++ s.orphans;
}

report_ext :
    {r s : StorageReport}
    → r.png ≡ s.png
    → r.pdf ≡ s.pdf
    → r.total_bytes ≡ s.total_bytes
    → r.orphans ≡ s.orphans
    → r ≡ s
report_ext a b c d = cc

orphans_step :
    (known : Bool) (before : List DiskFile) (file : DiskFile) (rest : List DiskFile)
    → (if known then before else before ++ file ∷ []) ++ rest
      ≡ before ++ (if not known then file ∷ rest else rest)
orphans_step true before file rest = refl
orphans_step false before file rest = append_assoc before (file ∷ []) rest

abbrev file_with : Text → Suffix → ℕ → DiskFile
file_with path suffix size = record { path = path; suffix = suffix; size = size }

-- One round of the loop.
add_file-plus :
    (cfg : Settings) (db : Db) (report : StorageReport) (path : Text) (suffix : Suffix) (size : ℕ)
    (files : List DiskFile)
    → plus
        (add_file cfg (known_paths cfg db) report (file_with path suffix size) suffix)
        (listed_report cfg db files)
      ≡ plus report (listed_report cfg db (file_with path suffix size ∷ files))
add_file-plus cfg db report path png size files =
    report_ext (omega arith) refl (omega arith) (orphans_step _ report.orphans _ _)
add_file-plus cfg db report path pdf size files =
    report_ext refl (omega arith) (omega arith) (orphans_step _ report.orphans _ _)
add_file-plus cfg db report path other size files = refl

count_files-eq :
    (cfg : Settings) (db : Db) (report : StorageReport) (files : List DiskFile)
    → count_files cfg (known_paths cfg db) report files ≡ plus report (listed_report cfg db files)
unfolding count_files
count_files-eq cfg db report [] =
    report_ext (omega arith) (omega arith) (omega arith) (sym (append-nil report.orphans))
count_files-eq cfg db report (file ∷ files) =
    count_files-eq cfg db (add_file cfg (known_paths cfg db) report file file.suffix) files
    ∙ add_file-plus cfg db report file.path file.suffix file.size files

select-same :
    (p q : DiskFile → Bool) (files : List DiskFile)
    → ((f : DiskFile) → p f ≡ q f)
    → select p files ≡ select q files
select-same p q [] h = refl
select-same p q (f ∷ files) h =
    rw (h f) (ap (λ l. if q f then f ∷ l else l) (select-same p q files h))

-- A generated file that no row points at.
abbrev pub is_orphan : Settings → Db → DiskFile → Bool
is_orphan cfg db file = is_artifact file.suffix && not (is_referenced cfg db file)

abbrev pub expected_report : Settings → Db → List DiskFile → StorageReport
expected_report cfg db files = record {
  png = length (select is_png files);
  pdf = length (select is_pdf files);
  total_bytes = total_size (select (λ f. is_artifact f.suffix) files);
  orphans = select (is_orphan cfg db) files;
}

storage_report-listed :
    (cfg : Settings) (db : Db) (files : List DiskFile)
    → storage_report cfg db files ≡ listed_report cfg db files
unfolding storage_report
storage_report-listed cfg db files =
    count_files-eq cfg db empty_report files
    ∙ report_ext (omega arith) (omega arith) (omega arith) refl

-- The report counts the pictures, the documents and their sizes, and its orphans are exactly the
-- generated files that no plan and no generated version points at, in their order.
pub storage_report-eq :
    (cfg : Settings) (db : Db) (files : List DiskFile)
    → storage_report cfg db files ≡ expected_report cfg db files
storage_report-eq cfg db files =
    storage_report-listed cfg db files
    ∙ report_ext refl refl refl (
        select-same (is_unlisted cfg db) (is_orphan cfg db) files
          (λ f. ap (λ b. is_artifact f.suffix && not b) (is_known-is_referenced cfg db f)))

known_same :
    (cfg : Settings) (known : List Text) (f orphan : DiskFile)
    → is_known cfg known orphan ≡ false
    → text_eq f.path orphan.path ≡ true
    → is_known cfg known f ≡ false
known_same cfg known f orphan free same =
    ap (λ p. exists (cfg.resolve p) known) (eq_of_text_eq f.path orphan.path same) ∙ free

skip-step :
    (known same : Bool) (f : DiskFile) (p : DiskFile → Bool) (kept files : List DiskFile)
    → (same ≡ true → known ≡ false)
    → p f ≡ known
    → select p kept ≡ select p files
    → select p (if not same then f ∷ kept else kept) ≡ select p (f ∷ files)
skip-step known true f p kept files apart now rest = rw (now ∙ apart refl) rest
skip-step known false f p kept files apart now rest = ap (λ l. if p f then f ∷ l else l) rest

known-unlink :
    (cfg : Settings) (known : List Text) (orphan : DiskFile) (files : List DiskFile)
    → is_known cfg known orphan ≡ false
    → select (is_known cfg known) (select (λ f. not (text_eq f.path orphan.path)) files)
      ≡ select (is_known cfg known) files
known-unlink cfg known orphan [] free = refl
known-unlink cfg known orphan (f ∷ files) free =
    skip-step (is_known cfg known f) (text_eq f.path orphan.path) f (is_known cfg known)
      (select (λ f. not (text_eq f.path orphan.path)) files) files
      (known_same cfg known f orphan free) refl (known-unlink cfg known orphan files free)

known-if :
    (b : Bool) (p : DiskFile → Bool) (x y : List DiskFile)
    → select p x ≡ select p y
    → select p (if b then x else y) ≡ select p y
known-if true p x y h = h
known-if false p x y h = refl

known-unlink_all :
    (cfg : Settings) (known : List Text) (deletable : DiskFile → Bool)
    (orphans files : List DiskFile)
    → All (λ o. is_known cfg known o ≡ false) orphans
    → select (is_known cfg known) (unlink_all deletable orphans files).1
      ≡ select (is_known cfg known) files
unfolding unlink_all
known-unlink_all cfg known deletable [] files free = refl
known-unlink_all cfg known deletable (o ∷ orphans) files free =
    known-unlink_all cfg known deletable orphans _ free.1
    ∙ known-if (deletable o) (is_known cfg known) (select (λ f. not (text_eq f.path o.path)) files)
        files (known-unlink cfg known o files free.0)

unknown-orphan : (a b : Bool) → (a && not b) ≡ true → b ≡ false
unknown-orphan a b h = ground (arith, h)

orphans-unknown :
    (cfg : Settings) (db : Db) (files : List DiskFile)
    → All (λ o. is_known cfg (known_paths cfg db) o ≡ false) (select (is_unlisted cfg db) files)
orphans-unknown cfg db [] = tt
orphans-unknown cfg db (f ∷ files) = elim (Bool-cases (is_unlisted cfg db f)) [
  | inl yes_orphan ↦ rw yes_orphan (
    unknown-orphan (is_artifact f.suffix) (is_known cfg (known_paths cfg db) f) yes_orphan,
    orphans-unknown cfg db files,
  )
  | inr no_orphan ↦ rw no_orphan (orphans-unknown cfg db files)
]

-- The cleanup never touches a file that a plan or a generated version points at: of these files, the
-- same are there before and after, in the same order.
pub delete_orphans-referenced :
    (cfg : Settings) (deletable : DiskFile → Bool) (db : Db) (files : List DiskFile)
    → select (is_referenced cfg db) (delete_orphans cfg deletable db files).1
      ≡ select (is_referenced cfg db) files
unfolding delete_orphans
delete_orphans-referenced cfg deletable db files =
    let known = is_known cfg (known_paths cfg db) in
    let same = is_known-is_referenced cfg db in
    let left = (unlink_all deletable (storage_report cfg db files).orphans files).1 in
    sym (select-same known (is_referenced cfg db) left same)
    ∙ known-unlink_all cfg (known_paths cfg db) deletable (storage_report cfg db files).orphans
        files (rw (storage_report-listed cfg db files) (orphans-unknown cfg db files))
    ∙ select-same known (is_referenced cfg db) files same
