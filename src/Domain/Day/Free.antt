-- ===== src/Domain/Day/Free.antt =====
-- The first free slot.
use planmaker.Common.{
  ℕ, zero, suc, ◌+◌, ◌<◌, ◌≤◌, ◌≡◌, refl, true, false, Option, none, some, ◌⊎◌, ◌↔◌, arith,
  Bool-cases, inl, inr,
}
use planmaker.Domain.Day.{PlanDay, slots_per_day, is_used, free_from, first_free_slot}

-- What the search from slot i with `left` slots to go says.
abbrev FreeFrom : PlanDay → ℕ → ℕ → Option ℕ → Type 0
FreeFrom d i left none = (j : ℕ) → i ≤ j → j < i + left → is_used d j ≡ true
FreeFrom d i left (some k) =
    (i ≤ k)
    × (k < i + left)
    × (is_used d k ≡ false)
    × ((j : ℕ) → i ≤ j → j < k → is_used d j ≡ true)

lt_or_eq : (i j : ℕ) → i ≤ j → (i < j) ⊎ (i ≡ j)
lt_or_eq i j h = omega arith

step_free :
    (d : PlanDay) (i left : ℕ) (o : Option ℕ)
    → is_used d i ≡ true
    → FreeFrom d (i + 1) left o
    → FreeFrom d i (suc left) o
step_free d i left none u h = λ j lo hi. elim (lt_or_eq i j lo) [
  | inl lt ↦ h j (omega arith) (omega arith)
  | inr e ↦ rw (← e) u
]
step_free d i left (some k) u h = (
  omega arith,
  omega arith,
  h.2,
  λ j lo hi. elim (lt_or_eq i j lo) [ inl lt ↦ h.3 j (omega arith) hi | inr e ↦ rw (← e) u ],
)

free_from-FreeFrom : (d : PlanDay) (i left : ℕ) → FreeFrom d i left (free_from d i left)
unfolding free_from
free_from-FreeFrom d i zero = λ j lo hi. absurd (omega arith)
free_from-FreeFrom d i (suc left) = elim (Bool-cases (is_used d i)) [
  | inl used ↦
      rw used
        (step_free d i left (free_from d (i + 1) left) used (free_from-FreeFrom d (i + 1) left))
  | inr free ↦ rw free (omega arith, omega arith, free, λ j lo hi. absurd (omega arith))
]

found :
    (d : PlanDay) (o : Option ℕ)
    → FreeFrom d 0 slots_per_day o
    → ((k : ℕ)
        → o ≡ some k
        → (k < slots_per_day) × (is_used d k ≡ false) × ((j : ℕ) → j < k → is_used d j ≡ true))
      × ((o ≡ none) ↔ ((j : ℕ) → j < slots_per_day → is_used d j ≡ true))
found d none h = (λ k e. absurd (cc), (λ e j lt. h j (omega arith) (omega arith), λ all. refl))
found d (some m) h = (
  λ k e. let same : m ≡ k = cc in rw (← same) (omega arith, h.2, λ j lt. h.3 j (omega arith) lt),
  (λ e. cc, λ all. absurd (cc (h.2, all m (omega arith)))),
)

-- `first_free_slot` returns the least slot that no filled activity uses, and `None` exactly when
-- all eight are used.
pub first_free_slot_lem :
    (d : PlanDay)
    → ((k : ℕ)
        → first_free_slot d ≡ some k
        → (k < slots_per_day) × (is_used d k ≡ false) × ((j : ℕ) → j < k → is_used d j ≡ true))
      × ((first_free_slot d ≡ none) ↔ ((j : ℕ) → j < slots_per_day → is_used d j ≡ true))
first_free_slot_lem d =
    found d (first_free_slot d) (unfold first_free_slot in free_from-FreeFrom d 0 slots_per_day)
