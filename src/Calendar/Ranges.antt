-- ===== src/Calendar/Ranges.antt =====
-- Date ranges: which are accepted, and the days that they hold.
use planmaker.Common.{
  ℕ, zero, suc, ◌+◌, ◌-◌, ◌≤◌, ◌<◌, ◌≡◌, refl, ap, sym, true, ◌∙◌, ◌↔◌, ◌%◌, arith, if◌then◌else◌,
  [], ◌∷◌, Option, none, some, Option-cases, ◌⊎◌, inl, inr, List, length, get_elem?,
}
use planmaker.Common.Result.{ok, >>=-eq_ok, ok-injective}
use planmaker.Common.Settings.{Settings}
use planmaker.Calendar.Weekdays.{index_of-weekday_key}
use planmaker.Calendar.{
  Date, weekday_key, Weekday, weekday_eq, index_of, PlanDate, range_limit, plan_dates,
  validate_range, range,
}

-- A range is accepted exactly when its end is not before its start and it has no more days than
-- the limit, and then its number of days is returned.
pub validate_range_lem :
    (cfg : Settings) (start end : Date) (max_days : Option ℕ) (n : ℕ)
    → (validate_range cfg start end max_days ≡ ok n)
      ↔ ((start ≤ end) × (n ≡ end - start + 1) × (n ≤ range_limit cfg max_days))
unfolding validate_range
validate_range_lem cfg start end max_days n = ground arith

pub length-plan_dates : (start i n : ℕ) → length (plan_dates start i n) ≡ n
unfolding plan_dates
length-plan_dates start i zero = refl
length-plan_dates start i (suc n) = ap suc (length-plan_dates start (i + 1) n)

abbrev pub nth_day : Date → ℕ → PlanDate
nth_day start k = record { index = k + 1; date = start + k; weekday_key = weekday_key (start + k) }

pub get_elem?-plan_dates :
    (start i n k : ℕ) → k < n → get_elem? (plan_dates start i n) k ≡ some (nth_day start (i + k))
unfolding plan_dates
get_elem?-plan_dates start i zero k h = elim h [ ]
get_elem?-plan_dates start i (suc n) zero h = ap (λ j. some (nth_day start j)) (omega arith)
get_elem?-plan_dates start i (suc n) (suc k) h =
    get_elem?-plan_dates start (i + 1) n k (omega arith)
    ∙ ap (λ j. some (nth_day start j)) {y = i + suc k} (omega arith)

pub range-eq_ok :
    (cfg : Settings) (start end : Date) (max_days : Option ℕ) (n : ℕ)
    → start ≤ end
    → n ≡ end - start + 1
    → n ≤ range_limit cfg max_days
    → range cfg start end max_days ≡ ok (plan_dates start 0 n)
unfolding range
range-eq_ok cfg start end max_days n h e fits =
    rw ((validate_range_lem cfg start end max_days n).1 (h, e, fits))

-- An accepted range lists all its days in order: `end - start + 1` of them, and the k-th (from 0)
-- is the date k days after the start, numbered k + 1, with that date's own weekday.
pub range_lists_days :
    (cfg : Settings) (start end : Date) (max_days : Option ℕ) (days : List PlanDate)
    → range cfg start end max_days ≡ ok days
    → (start ≤ end)
      × (length days ≡ end - start + 1)
      × ((k : ℕ) → start + k ≤ end → get_elem? days k ≡ some (nth_day start k))
unfolding range
range_lists_days cfg start end max_days days h =
    let (n, valid, e) = >>=-eq_ok (validate_range cfg start end max_days) _ h in
    let (order, count, fits) = (validate_range_lem cfg start end max_days n).0 valid in
    (
      order,
      ap length (sym (ok-injective e)) ∙ length-plan_dates start 0 n ∙ count,
      λ k le.
          ap (λ (ds : List PlanDate). get_elem? ds k) (sym (ok-injective e))
          ∙ get_elem?-plan_dates start 0 n k (omega arith)
          ∙ ap (λ j. some (nth_day start j)) {y = k} (omega arith),
    )

same_weekday : (a b : Date) → weekday_key a ≡ weekday_key b → a ≤ b → b < a + 7 → a ≡ b
same_weekday a b h le lt =
    let e : (a + 1) % 7 ≡ (b + 1) % 7 =
      sym (index_of-weekday_key a) ∙ ap index_of h ∙ index_of-weekday_key b in
    omega arith

-- The dictionary `{d.weekday_key: d.date for d in days}` read at a key: a later day wins.
unfoldable pub date_of : Weekday → List PlanDate → Option Date
date_of w [] = none
date_of w (d ∷ ds) = elim (date_of w ds) [
  | some x ↦ some x
  | none ↦ if weekday_eq d.weekday_key w then some d.date else none
]

pub weekday_eq_iff : (v w : Weekday) → (weekday_eq v w ≡ true) ↔ (v ≡ w)
unfolding index_of
weekday_eq_iff v w = ground arith

date_of_sound :
    (w : Weekday) (start i n : ℕ) (d : Date)
    → date_of w (plan_dates start i n) ≡ some d
    → (start + i ≤ d) × (d < start + i + n) × (weekday_key d ≡ w)
unfolding date_of plan_dates
date_of_sound w start i zero d h = cc
date_of_sound w start i (suc n) d h =
    ground (arith, date_of_sound w start (i + 1) n d, weekday_eq_iff (weekday_key (start + i)) w)

le_total : (a b : ℕ) → (a ≤ b) ⊎ (b ≤ a)
le_total a b = omega arith

one_week :
    (s a b : Date) → weekday_key a ≡ weekday_key b → s ≤ a → a < s + 7 → s ≤ b → b < s + 7 → a ≡ b
one_week s a b h la ha lb hb = elim (le_total a b) [
  | inl le ↦ same_weekday a b h le (omega arith)
  | inr ge ↦ sym (same_weekday b a (sym h) ge (omega arith))
]

date_of_complete :
    (w : Weekday) (start i n : ℕ) (d : Date)
    → n ≤ 7
    → start + i ≤ d
    → d < start + i + n
    → weekday_key d ≡ w
    → date_of w (plan_dates start i n) ≡ some d
unfolding date_of plan_dates
date_of_complete w start i zero d fits lo hi key = absurd (omega arith)
date_of_complete w start i (suc n) d fits lo hi key =
    elim (Option-cases (date_of w (plan_dates start (i + 1) n))) [
      | inl missing ↦
          ground (
            arith,
            date_of_complete w start (i + 1) n d,
            weekday_eq_iff (weekday_key (start + i)) w,
          )
      | inr (x, found) ↦
          let (low, high, same) = date_of_sound w start (i + 1) n x found in
          rw found (
            ap some (
              one_week (start + i) x d (same ∙ sym key) (omega arith) (omega arith) lo
                (omega arith)))
    ]

-- In a range of at most seven days the row of a weekday receives a date exactly when that date
-- lies in the range and falls on that weekday: no two days compete for one row.
pub date_of-range :
    (cfg : Settings) (start end : Date) (days : List PlanDate) (w : Weekday) (d : Date)
    → cfg.max_plan_range_days ≤ 7
    → range cfg start end none ≡ ok days
    → (date_of w days ≡ some d) ↔ ((start ≤ d) × (d ≤ end) × (weekday_key d ≡ w))
unfolding range
date_of-range cfg start end days w d small h =
    let (n, valid, e) = >>=-eq_ok (validate_range cfg start end none) _ h in
    let (order, count, fits) = (validate_range_lem cfg start end none n).0 valid in
    rw (← ok-injective e) (
      λ found.
          let (low, high, key) = date_of_sound w start 0 n d found in
          (omega arith, omega arith, key),
      λ inside. date_of_complete w start 0 n d (omega arith) (omega arith) (omega arith) inside.2,
    )
