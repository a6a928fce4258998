-- ===== src/Plans/Listing.antt =====
-- app/repositories/repositories.py, PlanRepository: the lists of plans and their counts.
--
-- Rows with the same `week_start` stay in the order of the table, which SQL leaves open; `light`
-- only says which relationships are loaded.
pub mod Pages
use planmaker.Common.{
  ℕ, Bool, true, false, ◌&&◌, Option, none, some, List, [], ◌∷◌, ◌==◌, leb, if◌then◌else◌, select,
  length, take, drop,
}
use planmaker.Domain.Plan.{PlanStatus, draft}
use planmaker.Database.{Db, PlanRow}
use planmaker.Plans.{is_issued}

abbrev pub is_draft : PlanStatus → Bool
is_draft draft = true
is_draft _ = false

-- `order_by(WeeklyPlanDB.week_start.desc())`
abbrev pub insert_latest : PlanRow → List PlanRow → List PlanRow
insert_latest p [] = p ∷ []
insert_latest p (q ∷ qs) =
    let rest = insert_latest p qs in if leb q.week_start p.week_start then p ∷ q ∷ qs else q ∷ rest

abbrev pub by_week_start : List PlanRow → List PlanRow
by_week_start [] = []
by_week_start (p ∷ ps) = insert_latest p (by_week_start ps)

-- `if x is not None: stmt = stmt.where(column == x)`
abbrev pub matches : Option ℕ → ℕ → Bool
matches none i = true
matches (some x) i = i == x

abbrev pub issued_or_any : Bool → PlanStatus → Bool
issued_or_any only_generated status = if only_generated then is_issued status else true

abbrev pub is_listed : Option ℕ → Option ℕ → Bool → PlanRow → Bool
is_listed advisor_id student_id only_generated p =
    matches advisor_id p.advisor_id
    && matches student_id p.student_id
    && issued_or_any only_generated p.status

unfoldable pub history : Option ℕ → Option ℕ → ℕ → ℕ → Bool → Db → List PlanRow
history advisor_id student_id limit offset only_generated db =
    take limit (
      drop offset
        (by_week_start (select (is_listed advisor_id student_id only_generated) db.plans)))

unfoldable pub count_history : Option ℕ → Option ℕ → Bool → Db → ℕ
count_history advisor_id student_id only_generated db =
    length (select (is_listed advisor_id student_id only_generated) db.plans)

abbrev pub first_of : List PlanRow → Option PlanRow
first_of [] = none
first_of (p ∷ ps) = some p

unfoldable pub latest_for_student : ℕ → Db → Option PlanRow
latest_for_student student_id db = first_of (
    take 1 (
      by_week_start
        (select (λ (p : PlanRow). (p.student_id == student_id) && is_issued p.status) db.plans)))

unfoldable pub count_drafts_of : ℕ → Db → ℕ
count_drafts_of advisor_id db =
    length (select (λ (p : PlanRow). (p.advisor_id == advisor_id) && is_draft p.status) db.plans)
