-- ===== src/Domain/Day/Tidy.antt =====
-- The order of a day's activities: one for each slot, by slot.
use planmaker.Common.{
  ℕ, ◌≡◌, ◌≢◌, ◌<◌, refl, not, false, Option, none, some, List, [], ◌∷◌, ◌++◌, ◌==◌, leb, select,
  arith, All, All-append, All-select, All-imp, Bool-cases, inl, inr,
}
use planmaker.Common.Result.{ok}
use planmaker.Domain.Activity.{Activity, activity_is_empty}
use planmaker.Domain.Day.{PlanDay, slots_per_day, insert_slot, sort_slots, placed, set_slot}

abbrev pub Ascending : List Activity → Type 0
Ascending [] = Unit
Ascending (a ∷ as') = All (λ b. a.slot_index < b.slot_index) as' × Ascending as'

abbrev Apart : Activity → List Activity → Type 0
Apart a as' = All (λ b. b.slot_index ≢ a.slot_index) as'

abbrev Distinct : List Activity → Type 0
Distinct [] = Unit
Distinct (a ∷ as') = Apart a as' × Distinct as'

abbrev pub IsCell : Activity → Type 0
IsCell a = (a.slot_index < slots_per_day) × (activity_is_empty a ≡ false)

-- The activities of the day stand by slot, at most one in a slot, none out of range, none empty.
pub record IsTidy (d : PlanDay) : Type 0 where
  pub ascending : Ascending d.activities
  pub cells : All IsCell d.activities

module _ {ℓ} (P : Activity → Type ℓ) where
  All-insert_slot :
      (a : Activity) (as' : List Activity) → P a → All P as' → All P (insert_slot a as')
  unfolding insert_slot
  All-insert_slot a [] h k = (h, tt)
  All-insert_slot a (b ∷ bs) h k = elim (Bool-cases (leb a.slot_index b.slot_index)) [
    | inl first ↦ rw first (h, k)
    | inr later ↦ rw later (k.0, All-insert_slot a bs h k.1)
  ]

  All-sort_slots : (as' : List Activity) → All P as' → All P (sort_slots as')
  unfolding sort_slots
  All-sort_slots [] h = tt
  All-sort_slots (a ∷ as') h = All-insert_slot a (sort_slots as') h.0 (All-sort_slots as' h.1)

insert_slot-Ascending :
    (a : Activity) (as' : List Activity)
    → Apart a as'
    → Ascending as'
    → Ascending (insert_slot a as')
unfolding insert_slot
insert_slot-Ascending a [] h k = (tt, tt)
insert_slot-Ascending a (b ∷ bs) h k = elim (Bool-cases (leb a.slot_index b.slot_index)) [
  | inl first ↦
      let lt : a.slot_index < b.slot_index = ground (arith, h.0) in
      rw first ((lt, All-imp (λ c. b.slot_index < c.slot_index) _ bs (λ c p. omega arith) k.0), k)
  | inr later ↦ rw later (
    All-insert_slot (λ c. b.slot_index < c.slot_index) a bs (ground arith) k.0,
    insert_slot-Ascending a bs h.1 k.1,
  )
]

sort_slots-Ascending : (as' : List Activity) → Distinct as' → Ascending (sort_slots as')
unfolding sort_slots
sort_slots-Ascending [] h = tt
sort_slots-Ascending (a ∷ as') h =
    insert_slot-Ascending a (sort_slots as')
      (All-sort_slots (λ b. b.slot_index ≢ a.slot_index) as' h.0) (sort_slots-Ascending as' h.1)

Ascending-Distinct : (as' : List Activity) → Ascending as' → Distinct as'
Ascending-Distinct [] h = tt
Ascending-Distinct (a ∷ as') h = (
  All-imp (λ b. a.slot_index < b.slot_index) _ as' (λ b p. omega arith) h.0,
  Ascending-Distinct as' h.1,
)

-- The activities outside slot i.
abbrev others : ℕ → List Activity → List Activity
others i as' = select (λ b. not (b.slot_index == i)) as'

others-Apart : (i : ℕ) (as' : List Activity) → All (λ b. b.slot_index ≢ i) (others i as')
others-Apart i [] = tt
others-Apart i (a ∷ as') = elim (Bool-cases (a.slot_index == i)) [
  | inl same ↦ rw same (others-Apart i as')
  | inr other ↦ rw other (ground arith, others-Apart i as')
]

others-Distinct : (i : ℕ) (as' : List Activity) → Distinct as' → Distinct (others i as')
others-Distinct i [] h = tt
others-Distinct i (a ∷ as') h = elim (Bool-cases (a.slot_index == i)) [
  | inl same ↦ rw same (others-Distinct i as' h.1)
  | inr other ↦ rw other (All-select _ _ as' h.0, others-Distinct i as' h.1)
]

All-placed {ℓ} :
    (P : Activity → Type ℓ) (i : ℕ) (o : Option Activity)
    → ((a : Activity) → activity_is_empty a ≡ false → P (record a { slot_index = i }))
    → All P (placed i o)
All-placed P i none h = tt
All-placed P i (some a) h = elim (Bool-cases (activity_is_empty a)) [
  | inl blank ↦ rw blank tt
  | inr filled ↦ rw filled (h a filled, tt)
]

append_placed-Distinct :
    (i : ℕ) (o : Option Activity) (as' : List Activity)
    → Distinct as'
    → All (λ b. b.slot_index ≢ i) as'
    → Distinct (as' ++ placed i o)
append_placed-Distinct i none [] h k = tt
append_placed-Distinct i (some a) [] h k = elim (Bool-cases (activity_is_empty a)) [
  | inl blank ↦ rw blank tt
  | inr filled ↦ rw filled (tt, tt)
]
append_placed-Distinct i o (b ∷ bs) h k = (
  All-append _ bs (placed i o) h.0 (All-placed _ i o (λ a _ e. k.0 (omega arith))),
  append_placed-Distinct i o bs h.1 k.1,
)

activity_is_empty-slot :
    (a : Activity) (i : ℕ) → activity_is_empty (record a { slot_index = i }) ≡ activity_is_empty a
unfolding activity_is_empty
activity_is_empty-slot a i = refl

abbrev new_cells : ℕ → Option Activity → List Activity → List Activity
new_cells i a as' = others i as' ++ placed i a

set_slot-accepts :
    (d e : PlanDay) (i : ℕ) (a : Option Activity)
    → set_slot d i a ≡ ok e
    → (i < slots_per_day) × (e.activities ≡ sort_slots (new_cells i a d.activities))
unfolding set_slot
set_slot-accepts d e i a h = ground arith

-- A write into a tidy day that is accepted leaves a tidy day: the activities are in slot order,
-- one at most in each of the eight slots, none of them empty.
pub set_slot-IsTidy :
    (d e : PlanDay) (i : ℕ) (a : Option Activity) → IsTidy d → set_slot d i a ≡ ok e → IsTidy e
set_slot-IsTidy d e i a h eq =
    let (inside, acts) = set_slot-accepts d e i a eq in
    let cell : (b : Activity) → activity_is_empty b ≡ false → IsCell (record b { slot_index = i }) =
      λ b filled. (inside, rw activity_is_empty-slot filled) in
    record {
      ascending = rw acts (
          sort_slots-Ascending (new_cells i a d.activities) (
            append_placed-Distinct i a (others i d.activities)
              (others-Distinct i d.activities (Ascending-Distinct d.activities h.ascending))
              (others-Apart i d.activities)));
      cells = rw acts (
          All-sort_slots IsCell (new_cells i a d.activities) (
            All-append IsCell (others i d.activities) (placed i a)
              (All-select IsCell _ d.activities h.cells) (All-placed IsCell i a cell)));
    }
