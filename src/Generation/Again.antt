-- ===== src/Generation/Again.antt =====
-- app/services/plan_service.py, `generate`: a second generation of the same plan.
use planmaker.Common.{◌≡◌, refl, ap, ◌∙◌, Bool, true, false, not, ◌&&◌, if◌then◌else◌, arith}
use planmaker.Common.Result.{ok, err, plan_generation_error}
use planmaker.Common.Text.{Text, is_empty}
use planmaker.Domain.Plan.{WeeklyPlan, generated, activity_count}
use planmaker.Generation.{
  Service, Outside, Store, GeneratedPlan, renderer_for, content_hash, file_path, file_stem, present,
  with_png, completed, validate, generate, generate_valid, build_pdf, render_picture, screen,
}
use planmaker.Generation.Stored.{
  png_of, pdf_of, hash_of, HasBoth, generate-IsStored, IsStored-HasBoth, passed,
}

-- The result of a generation that finds both files.
abbrev pub found_again : Service → Outside → Text → WeeklyPlan → GeneratedPlan
found_again svc out id plan =
    let renderer = renderer_for svc plan.template_version in
    record {
      png_path = png_of svc out id plan;
      pdf_path = pdf_of svc out id plan;
      cached = true;
      renderer = svc.renderer.signature;
      template_version = renderer.version;
      plan_hash = hash_of svc out plan;
      width = renderer.width;
      height = renderer.height;
    }

both_true : (a b : Bool) → a ≡ true → b ≡ true → (a && b && not false) ≡ true
both_true a b h k = ground (arith, h, k)

-- The status of the plan does not matter.
abbrev done : WeeklyPlan → WeeklyPlan
done plan = record plan { status = generated }

validate-status :
    (svc : Service) (plan : WeeklyPlan)
    → (validate svc (done plan)).errors ≡ (validate svc plan).errors
unfolding validate activity_count
validate-status svc plan = refl

generate_valid-found :
    (svc : Service) (out : Outside) (id : Text) (plan : WeeklyPlan) (store : Store)
    → HasBoth (png_of svc out id plan) (pdf_of svc out id plan) store
    → generate_valid svc out id (done plan) false store
      ≡ (ok (found_again svc out id plan), done plan, store)
unfolding generate_valid content_hash file_path file_stem render_picture build_pdf
generate_valid-found svc out id plan store (png, pdf) =
    let again = found_again svc out id plan in
    ap
      (λ c.
        completed (λ size. record again { cached = c; width = size.0; height = size.1 }) (done plan)
          (if c
            then (ok (again.width, again.height), store)
            else with_png (png_of svc out id plan) (pdf_of svc out id plan)
                (render_picture svc (done plan) screen) (build_pdf svc out (done plan)) store))
      (both_true (present (png_of svc out id plan) store) (present (pdf_of svc out id plan) store)
        png pdf)

generate-found :
    (svc : Service) (out : Outside) (id : Text) (plan : WeeklyPlan) (store : Store)
    → is_empty (validate svc plan).errors ≡ true
    → HasBoth (png_of svc out id plan) (pdf_of svc out id plan) store
    → generate svc out id (done plan) false store
      ≡ (ok (found_again svc out id plan), done plan, store)
unfolding generate
generate-found svc out id plan store valid both =
    ap
      (λ b.
        if b
        then generate_valid svc out id (done plan) false store
        else (err plan_generation_error, done plan, store))
      (ap is_empty (validate-status svc plan) ∙ valid)
    ∙ generate_valid-found svc out id plan store both

-- A plan that was generated and is generated again without force is found: nothing is rendered, the
-- plan and the files stay as they are, and the result has the paths of the first one.
pub generate-again :
    (svc : Service) (out : Outside) (id : Text) (plan changed : WeeklyPlan) (force : Bool)
    (store after : Store) (g : GeneratedPlan)
    → generate svc out id plan force store ≡ (ok g, changed, after)
    → (generate svc out id changed false after ≡ (ok (found_again svc out id plan), changed, after))
      × (g.png_path ≡ (found_again svc out id plan).png_path)
      × (g.pdf_path ≡ (found_again svc out id plan).pdf_path)
unfolding generate
generate-again svc out id plan changed force store after g h =
    let stored = generate-IsStored svc out id plan changed force store after g h in
    let (png, doc, files, status) = stored in
    let both = IsStored-HasBoth svc out id plan changed store after g stored in
    let (valid, finished) =
      passed (is_empty (validate svc plan).errors) (generate_valid svc out id plan force store) plan
        changed store after g h in
    (rw status (generate-found svc out id plan after valid both), png, doc)
