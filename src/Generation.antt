-- ===== src/Generation.antt =====
-- app/services/plan_service.py: `WeeklyPlanService`, which validates a plan, renders it and stores
-- the two files.
--
-- A renderer is an interface: its template, its fonts and its pictures. Reading Gregorian dates,
-- hashing and the conversion of a picture to a PDF are arguments.
pub mod Refusals
pub mod Again
pub mod Stored
use planmaker.Common.{
  ℕ, zero, suc, ◌+◌, Bool, true, false, not, ◌&&◌, ◌||◌, Option, none, some, List, [], ◌∷◌, ◌++◌,
  leb, ltb, ◌==◌, if◌then◌else◌, is_some, map, select,
}
use planmaker.Common.Dict.{remove, lookup, insert}
use planmaker.Common.Result.{Result, ok, err, plan_generation_error, other_error}
use planmaker.Common.Text.{Text, codes, text_eq, is_empty, decimal}
use planmaker.Calendar.{Date}
use planmaker.Domain.Plan.{WeeklyPlan, PlanStatus, generated, activity_count, Assignment}
use planmaker.Domain.Activity.{activity_is_empty}
use planmaker.Domain.Day.{PlanDay}
use planmaker.Render.Registry.{resolve}
use planmaker.Restore.Archive.{Bytes, text_key}

-- `scale=1.0` and `scale=self.print_scale`
pub data Scale : Type 0 where
  screen print : Scale

pub record Picture : Type 0 where
  pub png : Bytes
  pub width : ℕ
  pub height : ℕ

-- A backend with its layout. `none` is an exception; only one backend has vector PDFs.
pub record Renderer : Type 0 where
  pub signature : Text
  pub version : Text
  pub width : ℕ
  pub height : ℕ
  pub template_exists : Bool
  pub fonts_exist : Bool
  pub issues : WeeklyPlan → List Text
  pub render_png : WeeklyPlan → Scale → Option Picture
  pub render_pdf_vector : Option (WeeklyPlan → Option Bytes)

-- The service: its renderer, the fallback, and `get_renderer` of its backend for another version.
pub record Service : Type 0 where
  pub renderer : Renderer
  pub fallback : Option Renderer
  pub other : Text → Renderer

-- The payload of `WeeklyPlan.content_hash` (app/domain/models.py), before rows and lines are sorted:
-- the days with their activities that are not empty, and the assignments.
pub record Payload : Type 0 where
  pub student : Text
  pub week : Option Date × Option Date
  pub days : List PlanDay
  pub assignments : List Assignment
  pub template : Text
  pub renderer : Text

-- What the service takes from libraries, and the storage root. `digest` sorts, prints and hashes.
pub record Outside : Type 0 where
  pub digest : Payload → Text
  pub isoformat : Date → Text
  pub directory : Date → Text
  pub today : Date
  pub png_to_pdf : Bytes → Bytes
  pub storage_root : Text

abbrev filled_day : PlanDay → PlanDay
filled_day d = record d { activities = select (λ a. not (activity_is_empty a)) d.activities }

unfoldable pub content_hash : Outside → WeeklyPlan → Text → Text → Text
content_hash out plan template_version renderer_version = out.digest record {
  student = plan.student_name;
  week = (plan.week_start, plan.week_end);
  days = map filled_day plan.days;
  assignments = plan.assignments;
  template = template_version;
  renderer = renderer_version;
}

-- The files of the storage root, by path.
abbrev pub Store : Type 0
Store = List (Text × Bytes)

unfoldable pub renderer_for : Service → Option Text → Renderer
renderer_for svc template_version =
    let version = (resolve template_version).version in
    if text_eq version svc.renderer.version then svc.renderer else svc.other version

abbrev pub fallen_back : Option Renderer → WeeklyPlan → Scale → Option Picture
fallen_back none plan scale = none
fallen_back (some fallback) plan scale = fallback.render_png plan scale

abbrev or_fallback : Option Picture → Option Picture → Option Picture
or_fallback none other = other
or_fallback (some picture) other = some picture

-- `_render_png`
unfoldable pub render_picture : Service → WeeklyPlan → Scale → Option Picture
unfolding renderer_for
render_picture svc plan scale =
    or_fallback ((renderer_for svc plan.template_version).render_png plan scale)
      (fallen_back svc.fallback plan scale)

pub data PlanError : Type 0 where
  no_student no_range wrong_order no_activity no_template no_font : PlanError

abbrev error_if : Bool → PlanError → List PlanError
error_if b e = if b then e ∷ [] else []

abbrev pub range_errors : Option Date → Option Date → List PlanError
range_errors (some start) (some end) = error_if (leb end start) wrong_order
range_errors _ _ = no_range ∷ []

abbrev pub plan_errors : WeeklyPlan → List PlanError
plan_errors plan =
    error_if (is_empty plan.student_name && not (is_some plan.student_id)) no_student
    ++ (range_errors plan.week_start plan.week_end
        ++ error_if (activity_count plan == 0) no_activity)

pub record ValidationReport : Type 0 where
  pub errors : List PlanError
  pub issues : List Text

unfoldable pub validate : Service → WeeklyPlan → ValidationReport
unfolding renderer_for
validate svc plan =
    let renderer = renderer_for svc plan.template_version in
    let errors =
      plan_errors plan
      ++ (error_if (not renderer.template_exists) no_template
          ++ error_if (not renderer.fonts_exist) no_font) in
    record { errors = errors; issues = if is_empty errors then renderer.issues plan else [] }

abbrev first_date : Option Date → Date → Date
first_date none today = today
first_date (some d) today = d

abbrev sid_of : Option ℕ → Text → Text
sid_of none id = id
sid_of (some n) id = decimal n

-- `file_stem`, for a plan with its identifier.
unfoldable pub file_stem : Outside → Text → WeeklyPlan → Text
unfolding decimal
file_stem out id plan =
    codes "rotbeland_weekly_plan_"
    ++ (sid_of plan.student_id id
        ++ (codes "_"
            ++ (out.isoformat (first_date plan.week_start out.today)
                ++ (codes "_v" ++ decimal plan.version))))

-- `out_dir / f"{stem}.{suffix}"`
unfoldable pub file_path : Outside → Text → WeeklyPlan → Text → Text → Text
unfolding file_stem decimal
file_path out id plan plan_hash suffix =
    out.storage_root
    ++ (codes "/"
        ++ (out.directory (first_date plan.week_start out.today)
            ++ (codes "/"
                ++ (sid_of plan.student_id id
                    ++ (codes "/"
                        ++ (file_stem out id plan ++ (codes "_" ++ (plan_hash ++ suffix))))))))

abbrev vector_pdf : Option (WeeklyPlan → Option Bytes) → WeeklyPlan → Option Bytes
vector_pdf none plan = none
vector_pdf (some vector) plan = vector plan

abbrev raster_pdf : Outside → Option Picture → Option Bytes
raster_pdf out none = none
raster_pdf out (some picture) = some (out.png_to_pdf picture.png)

abbrev or_raster : Option Bytes → Option Bytes → Option Bytes
or_raster none other = other
or_raster (some pdf) other = some pdf

-- `_build_pdf`
unfoldable pub build_pdf : Service → Outside → WeeklyPlan → Option Bytes
unfolding render_picture
build_pdf svc out plan =
    or_raster (vector_pdf svc.renderer.render_pdf_vector plan)
      (raster_pdf out (render_picture svc plan print))

pub record GeneratedPlan : Type 0 where
  pub png_path : Text
  pub pdf_path : Text
  pub cached : Bool
  pub renderer : Text
  pub template_version : Text
  pub plan_hash : Text
  pub width : ℕ
  pub height : ℕ

-- `path.with_suffix(".png.tmp")`, for a path that ends in `.png`.
abbrev pub tmp_of : Text → Text
tmp_of path = path ++ codes ".tmp"

-- The temporary file is written, over one that is there, and takes the place of the file.
abbrev pub written : Text → Bytes → Store → Store
written path content store =
    insert text_key path content
      (remove text_key (tmp_of path) (insert text_key (tmp_of path) content store))

-- The two files, and the size of the picture: what stays in the store when a step raises is there.
abbrev pub with_pdf : Text → ℕ × ℕ → Option Bytes → Store → Result (ℕ × ℕ) × Store
with_pdf pdf_path size none store = (err other_error, store)
with_pdf pdf_path size (some pdf) store = (ok size, written pdf_path pdf store)

abbrev pub with_png : Text → Text → Option Picture → Option Bytes → Store → Result (ℕ × ℕ) × Store
with_png png_path pdf_path none pdf store = (err other_error, store)
with_png png_path pdf_path (some picture) pdf store =
    with_pdf pdf_path (picture.width, picture.height) pdf (written png_path picture.png store)

abbrev pub present : Text → Store → Bool
present path store = is_some (lookup text_key path store)

abbrev pub completed :
    (ℕ × ℕ → GeneratedPlan)
    → WeeklyPlan
    → Result (ℕ × ℕ) × Store
    → Result GeneratedPlan × WeeklyPlan × Store
completed result plan (err e, store) = (err e, plan, store)
completed result plan (ok size, store) =
    (ok (result size), record plan { status = generated }, store)

-- `generate` of a plan without errors.
unfoldable pub generate_valid :
    Service → Outside → Text → WeeklyPlan → Bool → Store → Result GeneratedPlan × WeeklyPlan × Store
unfolding renderer_for render_picture build_pdf file_path content_hash
generate_valid svc out id plan force store =
    let renderer = renderer_for svc plan.template_version in
    let plan_hash = content_hash out plan renderer.version renderer.signature in
    let png_path = file_path out id plan plan_hash (codes ".png") in
    let pdf_path = file_path out id plan plan_hash (codes ".pdf") in
    let cached = present png_path store && present pdf_path store && not force in
    let made =
      with_png png_path pdf_path (render_picture svc plan screen) (build_pdf svc out plan) store in
    completed
      (λ size. record {
        png_path = png_path;
        pdf_path = pdf_path;
        cached = cached;
        renderer = svc.renderer.signature;
        template_version = renderer.version;
        plan_hash = plan_hash;
        width = size.0;
        height = size.1;
      })
      plan (if cached then (ok (renderer.width, renderer.height), store) else made)

unfoldable pub generate :
    Service → Outside → Text → WeeklyPlan → Bool → Store → Result GeneratedPlan × WeeklyPlan × Store
unfolding validate generate_valid
generate svc out id plan force store =
    let finished = generate_valid svc out id plan force store in
    if is_empty (validate svc plan).errors
    then finished
    else (err plan_generation_error, plan, store)
