-- ===== src/Domain/Day.antt =====
-- app/domain/models.py, class PlanDay: the cells of one day.
pub mod Slots
pub mod Tidy
pub mod Free
pub mod Grid
use planmaker.Common.{
  ℕ, zero, suc, ◌+◌, ◌-◌, Bool, true, false, not, ◌&&◌, Option, none, some, List, [], ◌∷◌, ◌++◌,
  ltb, leb, ◌==◌, if◌then◌else◌, select, any, find, length,
}
use planmaker.Common.Result.{Result, ok, err, value_error}
use planmaker.Calendar.{Date, Weekday}
use planmaker.Domain.Activity.{Activity, activity_is_empty}

abbrev pub slots_per_day : ℕ
slots_per_day = 8

abbrev pub days_per_week : ℕ
days_per_week = 7

pub record PlanDay : Type 0 where
  pub weekday : Weekday
  pub date : Option Date
  pub activities : List Activity

-- `sort(key=lambda a: a.slot_index)`: stable, like Python's.
pub insert_slot : Activity → List Activity → List Activity
insert_slot a [] = a ∷ []
insert_slot a (b ∷ bs) = if leb a.slot_index b.slot_index then a ∷ b ∷ bs else b ∷ insert_slot a bs

unfoldable pub sort_slots : List Activity → List Activity
unfolding insert_slot
sort_slots [] = []
sort_slots (a ∷ as') = insert_slot a (sort_slots as')

-- The first activity of the slot decides.
unfoldable pub slot : PlanDay → ℕ → Option Activity
slot d index = elim (find (λ a. a.slot_index == index) d.activities) [
  | none ↦ none
  | some a ↦ if not (activity_is_empty a) then some a else none
]

-- `[activity]` with its slot set, or nothing for `None` and for an empty activity.
abbrev pub placed : ℕ → Option Activity → List Activity
placed index none = []
placed index (some a) =
    if not (activity_is_empty a) then record a { slot_index = index } ∷ [] else []

-- What a call makes of the `Activity` object that it is given: the same object stands in the list
-- afterwards, so that its slot is written into the caller's object as well.
abbrev pub set_slot_argument : ℕ → Option Activity → Option Activity
set_slot_argument index none = none
set_slot_argument index (some a) =
    if not (ltb index slots_per_day)
    then some a
    else if activity_is_empty a
    then some a
    else some (record a { slot_index = index })

-- The day holds values: a caller that gives an object which a list holds already changes that cell
-- as well, which is not modelled.
unfoldable pub set_slot : PlanDay → ℕ → Option Activity → Result PlanDay
unfolding sort_slots
set_slot d index activity =
    if not (ltb index slots_per_day)
    then err value_error
    else ok (record d {
      activities =
          sort_slots
            (select (λ a. not (a.slot_index == index)) d.activities ++ placed index activity);
    })

-- `i in used`
abbrev pub is_used : PlanDay → ℕ → Bool
is_used d i = any (λ a. not (activity_is_empty a) && (a.slot_index == i)) d.activities

-- The loop of `first_free_slot` from slot `i`, with `left` slots to go.
pub free_from : PlanDay → ℕ → ℕ → Option ℕ
free_from d i zero = none
free_from d i (suc left) =
    let later = free_from d (i + 1) left in if is_used d i then later else some i

unfoldable pub first_free_slot : PlanDay → Option ℕ
unfolding free_from
first_free_slot d = free_from d 0 slots_per_day

unfoldable pub filled_count : PlanDay → ℕ
filled_count d = length (select (λ a. not (activity_is_empty a)) d.activities)

unfoldable pub day_is_empty : PlanDay → Bool
unfolding filled_count
day_is_empty d = filled_count d == 0
