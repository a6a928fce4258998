-- ===== src/Domain/Day/Slots.antt =====
-- Writing and reading the slots of a day.
use planmaker.Common.{
  ℕ, ◌≡◌, refl, ◌∙◌, not, Option, none, some, List, [], ◌∷◌, ◌++◌, ◌==◌, if◌then◌else◌, true, false,
  ltb, select, find, arith,
}
use planmaker.Common.Result.{ok}
use planmaker.Domain.Activity.{Activity, activity_is_empty}
use planmaker.Domain.Day.{
  PlanDay, insert_slot, sort_slots, slot, placed, set_slot, set_slot_argument, slots_per_day,
}

abbrev pub head? : List Activity → Option Activity
head? [] = none
head? (a ∷ as') = some a

-- The first activity at a slot.
abbrev pub at : ℕ → List Activity → Option Activity
at j as' = find (λ a. a.slot_index == j) as'

at-insert_slot :
    (j : ℕ) (a : Activity) (as' : List Activity)
    → at j (insert_slot a as') ≡ (if a.slot_index == j then some a else at j as')
unfolding insert_slot
at-insert_slot j a [] = refl
at-insert_slot j a (b ∷ bs) = ground (arith, at-insert_slot j a bs)

-- A stable sort keeps the first activity of every slot.
at-sort_slots : (j : ℕ) (as' : List Activity) → at j (sort_slots as') ≡ at j as'
unfolding sort_slots
at-sort_slots j [] = refl
at-sort_slots j (a ∷ as') = ground (arith, at-insert_slot j a (sort_slots as'), at-sort_slots j as')

at-append :
    (j : ℕ) (as' bs : List Activity)
    → at j (as' ++ bs)
      ≡ (elim (at j as') as (λ _. Option Activity) [ none ↦ at j bs | some a ↦ some a ])
at-append j [] bs = refl
at-append j (a ∷ as') bs = ground (arith, at-append j as' bs)

at-select :
    (i j : ℕ) (as' : List Activity)
    → at j (select (λ a. not (a.slot_index == i)) as') ≡ (if i == j then none else at j as')
at-select i j [] = ground arith
at-select i j (a ∷ as') = ground (arith, at-select i j as')

at-placed :
    (i j : ℕ) (a : Option Activity)
    → at j (placed i a) ≡ (if i == j then head? (placed i a) else none)
at-placed i j none = ground arith
at-placed i j (some a) = ground arith

at-write :
    (i j : ℕ) (a : Option Activity) (as' : List Activity)
    → at j (sort_slots (select (λ b. not (b.slot_index == i)) as' ++ placed i a))
      ≡ (if i == j then head? (placed i a) else at j as')
at-write i j a as' =
    at-sort_slots j (select (λ b. not (b.slot_index == i)) as' ++ placed i a)
    ∙ at-append j (select (λ b. not (b.slot_index == i)) as') (placed i a)
    ∙ ground (arith, at-select i j as', at-placed i j a)

-- What is placed is not empty.
placed_kept :
    (i : ℕ) (a : Option Activity)
    → select (λ b. not (activity_is_empty b)) (placed i a) ≡ placed i a
unfolding activity_is_empty
placed_kept i none = refl
placed_kept i (some a) = ground arith

-- After a write to slot i, reading slot i returns the written activity, or nothing where `None` or
-- an empty activity was written; every other slot reads as before.
pub slot-set_slot :
    (d e : PlanDay) (i j : ℕ) (a : Option Activity)
    → set_slot d i a ≡ ok e
    → slot e j ≡ (if i == j then head? (placed i a) else slot d j)
unfolding slot set_slot
slot-set_slot d e i j a h = ground (arith, at-write i j a d.activities, placed_kept i a)

-- After a write of an activity that is not empty, reading its slot returns what the call has made of
-- the object that it was given.
pub slot-set_slot_argument :
    (d e : PlanDay) (i : ℕ) (a : Activity)
    → set_slot d i (some a) ≡ ok e
    → activity_is_empty a ≡ false
    → slot e i ≡ set_slot_argument i (some a)
unfolding set_slot
slot-set_slot_argument d e i a h filled =
    let inside : ltb i slots_per_day ≡ true = ground (arith, h) in
    slot-set_slot d e i i (some a) h ∙ rw (filled, inside) (ground arith)
