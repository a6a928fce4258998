-- ===== src/Domain/Day/Grid.antt =====
-- A day of the sheet as its users see it: a map from slots to activities. The list of activities
-- that PlanDay keeps (app/domain/models.py) is one way to hold such a map.
use planmaker.Common.{
  ℕ, zero, suc, ◌+◌, ◌≡◌, ◌<◌, ◌≢◌, refl, ◌∙◌, sym, ap, true, false, not, ◌&&◌, Option, none, some,
  List, [], ◌∷◌, ◌==◌, if◌then◌else◌, select, any, length, is_some, All, arith, Bool-cases, inl,
  inr, ltb,
}
use planmaker.Common.Result.{Result, ok, ◌>>=◌}
use planmaker.Domain.Activity.{Activity, activity_is_empty}
use planmaker.Domain.Day.{
  PlanDay, slots_per_day, slot, set_slot, placed, is_used, free_from, first_free_slot, filled_count,
}
use planmaker.Domain.Day.Slots.{at, head?, slot-set_slot}
use planmaker.Domain.Day.Tidy.{IsTidy, Ascending, IsCell, set_slot-IsTidy}

abbrev pub Grid : Type 0
Grid = ℕ → Option Activity

-- A slot and what is written there; `none` clears it.
abbrev pub Write : Type 0
Write = ℕ × Option Activity

-- An empty activity clears its slot too.
abbrev pub stored : ℕ → Option Activity → Option Activity
stored i none = none
stored i (some a) = if activity_is_empty a then none else some (record a { slot_index = i })

abbrev pub assign : Grid → Write → Grid
assign g w j = if w.0 == j then stored w.0 w.1 else g j

abbrev pub assign_all : Grid → List Write → Grid
assign_all g [] = g
assign_all g (w ∷ ws) = assign_all (assign g w) ws

-- The least slot from i on, of the next `left` ones, that the map leaves free.
abbrev pub least_free : Grid → ℕ → ℕ → Option ℕ
least_free g i zero = none
least_free g i (suc left) =
    let later = least_free g (i + 1) left in if is_some (g i) then later else some i

-- How many of the first n slots are taken.
abbrev pub taken : Grid → ℕ → ℕ
taken g zero = 0
taken g (suc n) = let rest = taken g n in if is_some (g n) then suc rest else rest

-- The day answers every question as the map does.
pub record Refines (d : PlanDay) (g : Grid) : Type 0 where
  pub tidy : IsTidy d
  pub reads : (j : ℕ) → slot d j ≡ g j
  pub free : first_free_slot d ≡ least_free g 0 slots_per_day
  pub filled : filled_count d ≡ taken g slots_per_day

-- The calls, one after the other.
abbrev pub set_slots : PlanDay → List Write → Result PlanDay
set_slots d [] = ok d
set_slots d (w ∷ ws) = set_slot d w.0 w.1 >>= (λ e. set_slots e ws)

-- A tidy day reads at a slot what stands there.
filled-at :
    (as' : List Activity) (j : ℕ)
    → All IsCell as'
    → (elim (at j as') as (λ _. Option Activity) [
      | none ↦ none
      | some a ↦ if not (activity_is_empty a) then some a else none
    ])
      ≡ at j as'
filled-at [] j h = refl
filled-at (a ∷ as') j h = ground (arith, h.0.1, filled-at as' j h.1)

slot-at : (d : PlanDay) (j : ℕ) → IsTidy d → slot d j ≡ at j d.activities
unfolding slot
slot-at d j h = filled-at d.activities j h.cells

used-at :
    (as' : List Activity) (j : ℕ)
    → All IsCell as'
    → any (λ a. not (activity_is_empty a) && (a.slot_index == j)) as' ≡ is_some (at j as')
used-at [] j h = refl
used-at (a ∷ as') j h = ground (arith, h.0.1, used-at as' j h.1)

free_from-least_free :
    (d : PlanDay) (g : Grid) (i left : ℕ)
    → ((j : ℕ) → is_used d j ≡ is_some (g j))
    → free_from d i left ≡ least_free g i left
unfolding free_from
free_from-least_free d g i zero h = refl
free_from-least_free d g i (suc left) h =
    ground (arith, h i, free_from-least_free d g (i + 1) left h)

taken-same :
    (g h : Grid) (n : ℕ) → ((j : ℕ) → j < n → is_some (g j) ≡ is_some (h j)) → taken g n ≡ taken h n
taken-same g h zero same = refl
taken-same g h (suc n) same =
    ground (arith, same n (omega arith), taken-same g h n (λ j lt. same j (omega arith)))

taken-one_more :
    (g h : Grid) (k n : ℕ)
    → k < n
    → is_some (g k) ≡ true
    → is_some (h k) ≡ false
    → ((j : ℕ) → j ≢ k → is_some (g j) ≡ is_some (h j))
    → taken g n ≡ suc (taken h n)
taken-one_more g h k zero lt on off same = absurd (omega arith)
taken-one_more g h k (suc n) lt on off same = elim (Bool-cases (n == k)) [
  | inl here ↦
      let e : n ≡ k = ground arith in
      ground (arith, on, off, taken-same g h n (λ j less. same j (λ q. absurd (omega arith))))
  | inr below ↦
      ground (arith, same n (ground arith), taken-one_more g h k n (ground arith) on off same)
]

at-above : (k : ℕ) (as' : List Activity) → All (λ b. k < b.slot_index) as' → at k as' ≡ none
at-above k [] h = refl
at-above k (a ∷ as') h = ground (arith, h.0, at-above k as' h.1)

length-taken :
    (as' : List Activity)
    → Ascending as'
    → All IsCell as'
    → length (select (λ a. not (activity_is_empty a)) as') ≡ taken (λ j. at j as') slots_per_day
length-taken [] up h = refl
length-taken (a ∷ as') up h =
    let rest = length-taken as' up.1 h.1 in
    let more : taken (λ j. at j (a ∷ as')) slots_per_day
        ≡ suc (taken (λ j. at j as') slots_per_day) =
      taken-one_more (λ j. at j (a ∷ as')) (λ j. at j as') a.slot_index slots_per_day h.0.0
        (ground arith) (ap is_some (at-above a.slot_index as' up.0)) (λ j other. ground arith) in
    ground (arith, h.0.1, rest, more)

-- A tidy day that reads like a map answers the other questions like it too.
tidy-Refines : (d : PlanDay) (g : Grid) → IsTidy d → ((j : ℕ) → slot d j ≡ g j) → Refines d g
unfolding first_free_slot filled_count
tidy-Refines d g h reads =
    let at-g : (j : ℕ) → is_some (at j d.activities) ≡ is_some (g j) =
      λ j. ap is_some (sym (slot-at d j h) ∙ reads j) in
    record {
      tidy = h;
      reads = reads;
      free =
          free_from-least_free d g 0 slots_per_day (λ j. used-at d.activities j h.cells ∙ at-g j);
      filled =
          length-taken d.activities h.ascending h.cells
          ∙ taken-same (λ j. at j d.activities) g slots_per_day (λ j _. at-g j);
    }

head?-placed : (i : ℕ) (o : Option Activity) → head? (placed i o) ≡ stored i o
head?-placed i none = refl
head?-placed i (some a) = ground arith

set_slot-inside :
    (d : PlanDay) (i : ℕ) (o : Option Activity)
    → i < slots_per_day
    → (e : PlanDay) × (set_slot d i o ≡ ok e)
unfolding set_slot
set_slot-inside d i o lt =
    let inside : ltb i slots_per_day ≡ true = ground arith in rw inside (_, refl)

set_slot-reads :
    (d e : PlanDay) (g : Grid) (w : Write) (j : ℕ)
    → slot d j ≡ g j
    → set_slot d w.0 w.1 ≡ ok e
    → slot e j ≡ assign g w j
set_slot-reads d e g w j h eq =
    slot-set_slot d e w.0 j w.1 eq
    ∙ ap (λ o. if w.0 == j then o else slot d j) (head?-placed w.0 w.1)
    ∙ ap (λ o. if w.0 == j then stored w.0 w.1 else o) h

-- Any calls of `set_slot` in range on a tidy day, each with an activity object of its own, return,
-- and the day that they leave answers `slot`, `first_free_slot` and `filled_count` as the map does
-- into which the same activities were written.
pub set_slots-Refines :
    (d : PlanDay) (g : Grid) (ws : List Write)
    → IsTidy d
    → ((j : ℕ) → slot d j ≡ g j)
    → All (λ w. w.0 < slots_per_day) ws
    → (e : PlanDay) × (set_slots d ws ≡ ok e) × Refines e (assign_all g ws)
set_slots-Refines d g [] h reads inside = (d, refl, tidy-Refines d g h reads)
set_slots-Refines d g (w ∷ ws) h reads inside =
    let (c, written) = set_slot-inside d w.0 w.1 inside.0 in
    rw written (
      set_slots-Refines c (assign g w) ws (set_slot-IsTidy d c w.0 w.1 h written)
        (λ j. set_slot-reads d c g w j (reads j) written) inside.1)
