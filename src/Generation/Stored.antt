-- ===== src/Generation/Stored.antt =====
-- app/services/plan_service.py, `generate`: the files that a generation stores and finds again.
use planmaker.Common.{
  [], ◌∷◌, ◌++◌, ℕ, ◌≡◌, ◌≢◌, refl, sym, ap, ◌∙◌, Bool, true, false, not, ◌&&◌, Option, none, some,
  if◌then◌else◌, is_some, arith,
}
use planmaker.Common.Dict.{lookup, insert, remove, lookup-insert, lookup-remove}
use mathlib.Core.Path.{subst}
use mathlib.Core.List.{append_assoc, append-nil}
use planmaker.Common.Result.{Exception, Result, ok, err, plan_generation_error, ok-injective}
use planmaker.Common.Text.{Text, codes, is_empty, text_eq, text_eq_refl}
use planmaker.Restore.Archive.{Bytes, text_key}
use planmaker.Domain.Plan.{WeeklyPlan, generated}
use planmaker.Generation.{
  Service, Outside, Store, GeneratedPlan, Picture, renderer_for, content_hash, file_path,
  render_picture, build_pdf, present, with_png, completed, validate, generate, generate_valid,
  screen, tmp_of, written,
}

-- Both files are in the store.
abbrev pub HasBoth : Text → Text → Store → Type 0
HasBoth png_path pdf_path store = (present png_path store ≡ true) × (present pdf_path store ≡ true)

lookup-written :
    (path other : Text) (content : Bytes) (store : Store)
    → lookup text_key other (written path content store) ≡ (
        if text_eq path other
        then some content
        else if text_eq (tmp_of path) other
        then none
        else lookup text_key other store)
unfolding text_key
lookup-written path other content store =
    rw
      (lookup-insert text_key path other content
        (remove text_key (tmp_of path) (insert text_key (tmp_of path) content store)))
      (rw (lookup-remove text_key (tmp_of path) other (insert text_key (tmp_of path) content store))
        (rw (lookup-insert text_key (tmp_of path) other content store)
          (twice (text_eq path other) (text_eq (tmp_of path) other))))
  where
    twice :
        (a b : Bool)
        → (if a
            then some content
            else if b
            then none
            else if b
            then some content
            else lookup text_key other store)
          ≡ (if a then some content else if b then none else lookup text_key other store)
    twice a true = refl
    twice a false = refl

err≢ok : {e : Exception} {g : GeneratedPlan} → err e ≢ ok g
err≢ok h = cc

completed-eq_ok :
    (result : ℕ × ℕ → GeneratedPlan) (plan changed : WeeklyPlan) (step : Result (ℕ × ℕ) × Store)
    (g : GeneratedPlan) (after : Store)
    → completed result plan step ≡ (ok g, changed, after)
    → (size : ℕ × ℕ) × (step ≡ (ok size, after))
      × (g ≡ result size)
      × (changed ≡ record plan { status = generated })
completed-eq_ok result plan changed (err e, store) g after h = absurd (err≢ok (ap (λ r. r.0) h))
completed-eq_ok result plan changed (ok size, store) g after h =
    (size, ap (λ r. (ok size, r.2)) h, sym (ok-injective (ap (λ r. r.0) h)), sym (ap (λ r. r.1) h))

-- Where a generation looks for the files of a plan, and where it puts them.
abbrev pub hash_of : Service → Outside → WeeklyPlan → Text
hash_of svc out plan =
    let renderer = renderer_for svc plan.template_version in
    content_hash out plan renderer.version renderer.signature

abbrev pub png_of : Service → Outside → Text → WeeklyPlan → Text
png_of svc out id plan = file_path out id plan (hash_of svc out plan) (codes ".png")

abbrev pub pdf_of : Service → Outside → Text → WeeklyPlan → Text
pdf_of svc out id plan = file_path out id plan (hash_of svc out plan) (codes ".pdf")

text_eq-prefix : (b s t : Text) → text_eq (b ++ s) (b ++ t) ≡ text_eq s t
text_eq-prefix [] s t = refl
text_eq-prefix (c ∷ b) s t = ground (arith, text_eq-prefix b s t)

file_path-base :
    (out : Outside) (id : Text) (plan : WeeklyPlan) (plan_hash suffix : Text)
    → file_path out id plan plan_hash suffix ≡ file_path out id plan plan_hash [] ++ suffix
unfolding file_path
file_path-base out id plan plan_hash suffix = sym (simp (append_assoc, append-nil) refl)

and-both : (a b c : Bool) → (a && b && c) ≡ true → (a ≡ true) × (b ≡ true)
and-both a b c h = ground (arith, h)

abbrev base_of : Service → Outside → Text → WeeklyPlan → Text
base_of svc out id plan = file_path out id plan (hash_of svc out plan) []

-- The four paths of a generation are four different files.
abbrev Differ : Text → Text → Type 0
Differ png_path pdf_path =
    (text_eq pdf_path png_path ≡ false)
    × (text_eq (tmp_of pdf_path) png_path ≡ false)
    × (text_eq png_path (tmp_of png_path) ≡ false)
    × (text_eq pdf_path (tmp_of png_path) ≡ false)
    × (text_eq (tmp_of pdf_path) (tmp_of png_path) ≡ false)
    × (text_eq pdf_path (tmp_of pdf_path) ≡ false)

endings : (b s t : Text) → text_eq s t ≡ false → text_eq (b ++ s) (b ++ t) ≡ false
endings b s t h = text_eq-prefix b s t ∙ h

suffixes-Differ : (b : Text) → Differ (b ++ codes ".png") (b ++ codes ".pdf")
suffixes-Differ b =
    rw (append_assoc b (codes ".pdf") (codes ".tmp"), append_assoc b (codes ".png") (codes ".tmp"))
      (
        endings b (codes ".pdf") (codes ".png") refl,
        endings b (codes ".pdf.tmp") (codes ".png") refl,
        endings b (codes ".png") (codes ".png.tmp") refl,
        endings b (codes ".pdf") (codes ".png.tmp") refl,
        endings b (codes ".pdf.tmp") (codes ".png.tmp") refl,
        endings b (codes ".pdf") (codes ".pdf.tmp") refl,
      )

paths-Differ :
    (svc : Service) (out : Outside) (id : Text) (plan : WeeklyPlan)
    → Differ (png_of svc out id plan) (pdf_of svc out id plan)
paths-Differ svc out id plan =
    let png = file_path-base out id plan (hash_of svc out plan) (codes ".png") in
    let pdf = file_path-base out id plan (hash_of svc out plan) (codes ".pdf") in
    rw (png, pdf) (suffixes-Differ (base_of svc out id plan))

-- Every file but four is as it was.
abbrev pub OthersKept : Text → Text → Store → Store → Type 0
OthersKept png_path pdf_path before after =
    (path : Text)
    → text_eq png_path path ≡ false
    → text_eq pdf_path path ≡ false
    → text_eq (tmp_of png_path) path ≡ false
    → text_eq (tmp_of pdf_path) path ≡ false
    → lookup text_key path after ≡ lookup text_key path before

-- The picture and the document are in their files, nothing is left of the temporary files, and
-- every other file is as it was.
abbrev pub HasFiles : Text → Text → Bytes → Bytes → Store → Store → Type 0
HasFiles png_path pdf_path png pdf before after =
    (lookup text_key png_path after ≡ some png)
    × (lookup text_key pdf_path after ≡ some pdf)
    × (lookup text_key (tmp_of png_path) after ≡ none)
    × (lookup text_key (tmp_of pdf_path) after ≡ none)
    × OthersKept png_path pdf_path before after

written-HasFiles :
    (png_path pdf_path : Text) (png pdf : Bytes) (store : Store)
    → Differ png_path pdf_path
    → HasFiles png_path pdf_path png pdf store (written pdf_path pdf (written png_path png store))
written-HasFiles png_path pdf_path png pdf store (a, b, c, d, e, f) =
    let after_png = λ (x : Text). lookup-written png_path x png store in
    let after_pdf = λ (x : Text). lookup-written pdf_path x pdf (written png_path png store) in
    (
      after_pdf png_path ∙ rw (a, b) (after_png png_path ∙ rw (text_eq_refl png_path) refl),
      after_pdf pdf_path ∙ rw (text_eq_refl pdf_path) refl,
      after_pdf (tmp_of png_path)
          ∙ rw (d, e) (after_png (tmp_of png_path) ∙ rw (c, text_eq_refl (tmp_of png_path)) refl),
      after_pdf (tmp_of pdf_path) ∙ rw (f, text_eq_refl (tmp_of pdf_path)) refl,
      λ path h k l m. after_pdf path ∙ rw (k, m) (after_png path ∙ rw (h, l) refl),
    )

with_png-HasFiles :
    (png_path pdf_path : Text) (picture : Option Picture) (pdf : Option Bytes) (store after : Store)
    (size : ℕ × ℕ)
    → Differ png_path pdf_path
    → with_png png_path pdf_path picture pdf store ≡ (ok size, after)
    → (drawn : Picture) × (doc : Bytes) × (picture ≡ some drawn)
      × (pdf ≡ some doc)
      × HasFiles png_path pdf_path drawn.png doc store after
with_png-HasFiles png_path pdf_path none pdf store after size differ h = cc
with_png-HasFiles png_path pdf_path (some picture) none store after size differ h = cc
with_png-HasFiles png_path pdf_path (some picture) (some pdf) store after size differ h = (
  picture,
  pdf,
  refl,
  refl,
  subst (HasFiles png_path pdf_path picture.png pdf store) (ap (λ r. r.1) h)
      (written-HasFiles png_path pdf_path picture.png pdf store differ),
)

-- The files were there, and the store is as it was; or they hold what the renderer has drawn.
abbrev pub FoundOrDrawn :
    Bool → Text → Text → Option Picture → Option Bytes → Store → Store → Type 0
FoundOrDrawn true png_path pdf_path picture pdf before after =
    HasBoth png_path pdf_path before × (after ≡ before)
FoundOrDrawn false png_path pdf_path picture pdf before after =
    (drawn : Picture) × (doc : Bytes) × (picture ≡ some drawn)
    × (pdf ≡ some doc)
    × HasFiles png_path pdf_path drawn.png doc before after

-- The step between the test for stored files and the result.
chosen-FoundOrDrawn :
    (cached : Bool) (png_path pdf_path : Text) (picture : Option Picture) (pdf : Option Bytes)
    (dims size : ℕ × ℕ) (store after : Store)
    → Differ png_path pdf_path
    → (cached ≡ true → HasBoth png_path pdf_path store)
    → (if cached then (ok dims, store) else with_png png_path pdf_path picture pdf store)
      ≡ (ok size, after)
    → FoundOrDrawn cached png_path pdf_path picture pdf store after
chosen-FoundOrDrawn true png_path pdf_path picture pdf dims size store after differ found step =
    (found refl, sym (ap (λ r. r.1) step))
chosen-FoundOrDrawn false png_path pdf_path picture pdf dims size store after differ found step =
    with_png-HasFiles png_path pdf_path picture pdf store after size differ step

-- What a generation leaves, for a plan with its two paths.
abbrev pub IsStored :
    Service → Outside → Text → WeeklyPlan → Store → GeneratedPlan → WeeklyPlan → Store → Type 0
IsStored svc out id plan before g changed after =
    (g.png_path ≡ png_of svc out id plan)
    × (g.pdf_path ≡ pdf_of svc out id plan)
    × FoundOrDrawn g.cached (png_of svc out id plan) (pdf_of svc out id plan)
        (render_picture svc plan screen) (build_pdf svc out plan) before after
    × (changed ≡ record plan { status = generated })

present-some :
    (path : Text) (store : Store) (c : Bytes)
    → lookup text_key path store ≡ some c
    → present path store ≡ true
present-some path store c h = ap is_some h

FoundOrDrawn-HasBoth :
    (cached : Bool) (png_path pdf_path : Text) (picture : Option Picture) (pdf : Option Bytes)
    (before after : Store)
    → FoundOrDrawn cached png_path pdf_path picture pdf before after
    → HasBoth png_path pdf_path after
FoundOrDrawn-HasBoth true png_path pdf_path picture pdf before after (both, same) =
    subst (HasBoth png_path pdf_path) (sym same) both
FoundOrDrawn-HasBoth false png_path pdf_path picture pdf before after
      (drawn, doc, pictured, documented, files) =
    (present-some png_path after drawn.png files.0, present-some pdf_path after doc files.1)

-- However it came to it, both files are in the store.
pub IsStored-HasBoth :
    (svc : Service) (out : Outside) (id : Text) (plan changed : WeeklyPlan) (before after : Store)
    (g : GeneratedPlan)
    → IsStored svc out id plan before g changed after
    → HasBoth (png_of svc out id plan) (pdf_of svc out id plan) after
IsStored-HasBoth svc out id plan changed before after g h =
    FoundOrDrawn-HasBoth g.cached _ _ (render_picture svc plan screen) (build_pdf svc out plan)
      before after h.2

generate_valid-IsStored :
    (svc : Service) (out : Outside) (id : Text) (plan changed : WeeklyPlan) (force : Bool)
    (store after : Store) (g : GeneratedPlan)
    → generate_valid svc out id plan force store ≡ (ok g, changed, after)
    → IsStored svc out id plan store g changed after
unfolding generate_valid
generate_valid-IsStored svc out id plan changed force store after g h =
    let (size, step, result, status) = completed-eq_ok _ plan changed _ g after h in
    let cached =
      present (png_of svc out id plan) store
      && present (pdf_of svc out id plan) store
      && not force in
    let files =
      chosen-FoundOrDrawn cached (png_of svc out id plan) (pdf_of svc out id plan)
        (render_picture svc plan screen) (build_pdf svc out plan) _ size store after
        (paths-Differ svc out id plan) (λ hit. and-both _ _ _ hit) step in
    (
      ap (λ r. r.png_path) result,
      ap (λ r. r.pdf_path) result,
      subst
          (λ c.
            FoundOrDrawn c (png_of svc out id plan) (pdf_of svc out id plan)
              (render_picture svc plan screen) (build_pdf svc out plan) store after)
          (sym (ap (λ (r : GeneratedPlan). r.cached) result)) files,
      status,
    )

-- A generation that returns has passed the validation.
pub passed :
    (valid : Bool) (finished : Result GeneratedPlan × WeeklyPlan × Store)
    (plan changed : WeeklyPlan) (store after : Store) (g : GeneratedPlan)
    → (if valid then finished else (err plan_generation_error, plan, store))
      ≡ (ok g, changed, after)
    → (valid ≡ true) × (finished ≡ (ok g, changed, after))
passed true finished plan changed store after g h = (refl, h)
passed false finished plan changed store after g h = absurd (err≢ok (ap (λ r. r.0) h))

-- A generation that returns leaves both files in the store, under the paths that it returns, which
-- are those of the plan's content, template and renderer. If its result says cached, they were there
-- and the store is as it was; otherwise they hold the picture and the document that were drawn, the
-- temporary files are gone, and every other file is as it was. Of the plan only the status has
-- changed: it is generated.
pub generate-IsStored :
    (svc : Service) (out : Outside) (id : Text) (plan changed : WeeklyPlan) (force : Bool)
    (store after : Store) (g : GeneratedPlan)
    → generate svc out id plan force store ≡ (ok g, changed, after)
    → IsStored svc out id plan store g changed after
unfolding generate
generate-IsStored svc out id plan changed force store after g h =
    let (valid, finished) =
      passed (is_empty (validate svc plan).errors) (generate_valid svc out id plan force store) plan
        changed store after g h in
    generate_valid-IsStored svc out id plan changed force store after g finished
