-- ===== src/Plans/Slots.antt =====
-- app/repositories/repositories.py: plans by their id, and the cells of a day.
use planmaker.Common.{
  ℕ, ◌≡◌, refl, ap, ◌∙◌, true, false, not, Option, none, some, List, [], ◌∷◌, ◌++◌, ◌==◌,
  if◌then◌else◌, select, find, arith, Bool-cases, inl, inr,
}
use planmaker.Domain.Activity.{Activity}
use planmaker.Calendar.{Weekday, weekday_eq}
use planmaker.Calendar.Ranges.{weekday_eq_iff}
use planmaker.Database.{PlanRow, DayRow}
use planmaker.Plans.{update_plan, has_values, write_slot, day_of, update_day, on_day}

pub get-update_plan :
    (i : ℕ) (f : PlanRow → PlanRow) (ps : List PlanRow) (p : PlanRow)
    → ((x : PlanRow) → (f x).id ≡ x.id)
    → find (λ x. x.id == i) ps ≡ some p
    → find (λ x. x.id == i) (update_plan i f ps) ≡ some (f p)
get-update_plan i f [] p keep h = cc
get-update_plan i f (x ∷ ps) p keep h = elim (Bool-cases (x.id == i)) [
  | inl here ↦
      let same : ((f x).id == i) ≡ true = ground (arith, keep x) in
      let found : x ≡ p = ground arith in rw (here, same) (ap (λ y. some (f y)) found)
  | inr later ↦ rw (later, later) (get-update_plan i f ps p keep (rw later at h))
]

pub get-update_other :
    (i j : ℕ) (f : PlanRow → PlanRow) (ps : List PlanRow)
    → ((x : PlanRow) → (f x).id ≡ x.id)
    → i == j ≡ false
    → find (λ x. x.id == j) (update_plan i f ps) ≡ find (λ x. x.id == j) ps
get-update_other i j f [] keep h = refl
get-update_other i j f (x ∷ ps) keep h = elim (Bool-cases (x.id == i)) [
  | inl here ↦
      let was : (x.id == j) ≡ false = ground arith in
      let is : ((f x).id == j) ≡ false = ground (arith, keep x) in rw (here, was, is) refl
  | inr later ↦
      rw later (ap (λ r. if x.id == j then some x else r) (get-update_other i j f ps keep h))
]

pub id_of_plan :
    (i : ℕ) (ps : List PlanRow) (p : PlanRow) → find (λ x. x.id == i) ps ≡ some p → p.id ≡ i
id_of_plan i [] p h = cc
id_of_plan i (x ∷ ps) p h = ground (arith, id_of_plan i ps p)

-- The cells of one slot, in the order of the rows.
abbrev pub in_slot : ℕ → List Activity → List Activity
in_slot i as' = select (λ (a : Activity). a.slot_index == i) as'

in_slot-append :
    (i : ℕ) (xs ys : List Activity) → in_slot i (xs ++ ys) ≡ in_slot i xs ++ in_slot i ys
in_slot-append i [] ys = refl
in_slot-append i (x ∷ xs) ys = elim (Bool-cases (x.slot_index == i)) [
  | inl here ↦ rw here (ap (λ r. x ∷ r) (in_slot-append i xs ys))
  | inr other ↦ rw other (in_slot-append i xs ys)
]

abbrev without : ℕ → List Activity → List Activity
without i as' = select (λ (a : Activity). not (a.slot_index == i)) as'

in_slot-without : (i : ℕ) (as' : List Activity) → in_slot i (without i as') ≡ []
in_slot-without i [] = refl
in_slot-without i (a ∷ as') = elim (Bool-cases (a.slot_index == i)) [
  | inl here ↦ rw here (in_slot-without i as')
  | inr other ↦ rw (other, other) (in_slot-without i as')
]

in_slot-without_other :
    (i j : ℕ) (as' : List Activity) → i == j ≡ false → in_slot j (without i as') ≡ in_slot j as'
in_slot-without_other i j [] h = refl
in_slot-without_other i j (a ∷ as') h = elim (Bool-cases (a.slot_index == i)) [
  | inl here ↦
      let away : (a.slot_index == j) ≡ false = ground arith in
      rw (here, away) (in_slot-without_other i j as' h)
  | inr other ↦
      rw other (ap (λ r. if a.slot_index == j then a ∷ r else r) (in_slot-without_other i j as' h))
]

-- What a write leaves in its slot: the new cell, when it has any text.
abbrev pub cell_of : ℕ → Option Activity → List Activity
cell_of i none = []
cell_of i (some v) = if has_values v then record v { slot_index = i } ∷ [] else []

in_slot-cell_of : (i : ℕ) (v : Activity) → in_slot i (cell_of i (some v)) ≡ cell_of i (some v)
in_slot-cell_of i v = ground arith

in_slot-cell_of_other :
    (i j : ℕ) (v : Activity) → i == j ≡ false → in_slot j (cell_of i (some v)) ≡ []
in_slot-cell_of_other i j v h = ground arith

append-nil : (xs : List Activity) → xs ++ [] ≡ xs
append-nil [] = refl
append-nil (x ∷ xs) = ap (λ r. x ∷ r) (append-nil xs)

-- Writing a slot leaves at most one cell in it, the values that were written, and none when they
-- are missing or blank; the cells of every other slot stay as they were.
pub write_slot_lem :
    (i j : ℕ) (v : Option Activity) (as' : List Activity)
    → i == j ≡ false
    → (in_slot i (write_slot i v as') ≡ cell_of i v)
      × (in_slot j (write_slot i v as') ≡ in_slot j as')
write_slot_lem i j none as' h = (in_slot-without i as', in_slot-without_other i j as' h)
write_slot_lem i j (some v) as' h = (
  in_slot-append i (without i as') (cell_of i (some v))
      ∙ rw (in_slot-without i as') (in_slot-cell_of i v),
  in_slot-append j (without i as') (cell_of i (some v))
      ∙ rw (in_slot-without_other i j as' h, in_slot-cell_of_other i j v h)
          (append-nil (in_slot j as')),
)

-- The cells of a weekday's row; none without a row.
abbrev pub row_cells : Option DayRow → List Activity
row_cells none = []
row_cells (some d) = d.activities

abbrev pub cells : Weekday → PlanRow → List Activity
cells w p = row_cells (day_of w p)

abbrev with_cells : (List Activity → List Activity) → DayRow → DayRow
with_cells f d = record d { activities = f d.activities }

find-update_day :
    (w : Weekday) (f : List Activity → List Activity) (ds : List DayRow) (d : DayRow)
    → find (λ x. weekday_eq x.weekday w) ds ≡ some d
    → row_cells (find (λ x. weekday_eq x.weekday w) (update_day w (with_cells f) ds))
      ≡ f d.activities
find-update_day w f [] d h = cc
find-update_day w f (x ∷ ds) d h = elim (Bool-cases (weekday_eq x.weekday w)) [
  | inl here ↦ let found : x ≡ d = ground arith in rw (here, here) (ap (λ y. f y.activities) found)
  | inr later ↦ rw (later, later) (find-update_day w f ds d (rw later at h))
]

find-update_other_day :
    (w v : Weekday) (f : List Activity → List Activity) (ds : List DayRow)
    → weekday_eq w v ≡ false
    → row_cells (find (λ x. weekday_eq x.weekday v) (update_day w (with_cells f) ds))
      ≡ row_cells (find (λ x. weekday_eq x.weekday v) ds)
find-update_other_day w v f [] h = refl
find-update_other_day w v f (x ∷ ds) h = elim (Bool-cases (weekday_eq x.weekday w)) [
  | inl here ↦
      let away : weekday_eq x.weekday v ≡ false =
        ap (λ u. weekday_eq u v) ((weekday_eq_iff x.weekday w).0 here) ∙ h in
      rw (here, away) refl
  | inr later ↦ rw later (keep_head x _ _ (find-update_other_day w v f ds h))
]
  where
    keep_head :
        (x : DayRow) (ds es : List DayRow)
        → row_cells (find (λ y. weekday_eq y.weekday v) ds)
          ≡ row_cells (find (λ y. weekday_eq y.weekday v) es)
        → row_cells (find (λ y. weekday_eq y.weekday v) (x ∷ ds))
          ≡ row_cells (find (λ y. weekday_eq y.weekday v) (x ∷ es))
    keep_head x ds es h = elim (Bool-cases (weekday_eq x.weekday v)) [
      | inl here ↦ rw here refl
      | inr later ↦ rw later h
    ]

-- A change of the cells of a weekday that has a row.
pub on_day-cells :
    (w : Weekday) (f : List Activity → List Activity) (p : PlanRow) (d : DayRow)
    → day_of w p ≡ some d
    → (cells w (on_day w f p) ≡ f d.activities)
      × ((v : Weekday) → weekday_eq w v ≡ false → cells v (on_day w f p) ≡ cells v p)
on_day-cells w f p d h =
    (find-update_day w f p.days d h, λ v other. find-update_other_day w v f p.days other)
