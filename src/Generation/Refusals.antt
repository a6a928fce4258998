-- ===== src/Generation/Refusals.antt =====
-- app/services/plan_service.py, `generate`: the plans that it refuses.
use planmaker.Common.{
  ◌≡◌, refl, ap, ◌∙◌, Bool, false, none, some, List, [], ◌∷◌, ◌++◌, ◌≤◌, if◌then◌else◌, arith,
}
use planmaker.Common.Result.{ok, err, plan_generation_error}
use planmaker.Common.Settings.{Settings}
use planmaker.Common.Text.{Text, is_empty}
use planmaker.Calendar.{Date, validate_range}
use planmaker.Calendar.Ranges.{validate_range_lem}
use planmaker.Domain.Plan.{WeeklyPlan}
use planmaker.Generation.{
  Service, Outside, Store, PlanError, range_errors, plan_errors, validate, generate, generate_valid,
}

append-nonempty : (xs ys : List PlanError) → is_empty ys ≡ false → is_empty (xs ++ ys) ≡ false
append-nonempty [] ys h = h
append-nonempty (x ∷ xs) ys h = refl

nonempty-append : (xs ys : List PlanError) → is_empty xs ≡ false → is_empty (xs ++ ys) ≡ false
nonempty-append [] ys h = cc
nonempty-append (x ∷ xs) ys h = refl

one_day_error : (d : Date) → is_empty (range_errors (some d) (some d)) ≡ false
one_day_error d = ground arith

plan_errors-one_day :
    (plan : WeeklyPlan) (d : Date)
    → plan.week_start ≡ some d
    → plan.week_end ≡ some d
    → is_empty (plan_errors plan) ≡ false
plan_errors-one_day plan d starts ends = append-nonempty _ _ (
    nonempty-append (range_errors plan.week_start plan.week_end) _ (
      ap (λ s. is_empty (range_errors s plan.week_end)) starts
      ∙ ap (λ e. is_empty (range_errors (some d) e)) ends
      ∙ one_day_error d))

-- A plan of one day is a range that the calendar accepts, but it is never generated: `generate`
-- raises PlanGenerationError whatever the plan holds, and leaves the plan and the files as they
-- were.
pub generate-one_day :
    (cfg : Settings) (svc : Service) (out : Outside) (id : Text) (plan : WeeklyPlan) (force : Bool)
    (store : Store) (d : Date)
    → plan.week_start ≡ some d
    → plan.week_end ≡ some d
    → 1 ≤ cfg.max_plan_range_days
    → (validate_range cfg d d none ≡ ok 1)
      × (generate svc out id plan force store ≡ (err plan_generation_error, plan, store))
unfolding generate validate
generate-one_day cfg svc out id plan force store d starts ends limit =
    let invalid : is_empty (validate svc plan).errors ≡ false =
      nonempty-append (plan_errors plan) _ (plan_errors-one_day plan d starts ends) in
    (
      (validate_range_lem cfg d d none 1).1 (omega arith, omega arith, limit),
      ap
          (λ b.
            if b
            then generate_valid svc out id plan force store
            else (err plan_generation_error, plan, store))
          invalid,
    )
