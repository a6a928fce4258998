-- ===== src/Calendar/Week.antt =====
-- Saturdays and calendar weeks.
use planmaker.Common.{
  ℕ, ◌+◌, ◌-◌, ◌*◌, ◌%◌, ◌≤◌, ◌<◌, ◌≡◌, sym, ap, ◌∙◌, true, arith, List, none, some,
}
use planmaker.Common.Int.{ℤ, pos_part, neg_part}
use planmaker.Common.Result.{ok}
use planmaker.Common.Settings.{Settings}
use planmaker.Calendar.Weekdays.{weekday_index-eq, index_of-weekday_key, weekday_key-eq}
use planmaker.Calendar.Ranges.{range-eq_ok}
use planmaker.Calendar.{
  Date, saturday, weekday_index, weekday_at, index_of, weekday_key, saturday_of, PlanDate,
  plan_dates, week_range, is_calendar_week,
}

-- The k-th day after a Saturday has the k-th weekday of WEEKDAY_KEYS.
pub weekday_key-add :
    (s k : ℕ) → weekday_key s ≡ saturday → k < 7 → weekday_key (s + k) ≡ weekday_at k
unfolding index_of
weekday_key-add s k h lt =
    let at : (s + 1) % 7 ≡ 0 = sym (index_of-weekday_key s) ∙ ap index_of h in
    rw weekday_key-eq (ap weekday_at (omega arith))

-- From ordinal 6 on, `saturday_of` returns the Saturday that begins the week of its date: a
-- Saturday, not later than the date, and less than seven days before it.
pub saturday_of_lem :
    (d : Date)
    → 6 ≤ d
    → (weekday_key (saturday_of d) ≡ saturday) × (saturday_of d ≤ d) × (d < saturday_of d + 7)
unfolding saturday_of
saturday_of_lem d h = (
  rw (weekday_key-eq, weekday_index-eq) (ap weekday_at {y = 0} (omega arith)),
  omega (arith, weekday_index-eq d),
  omega (arith, weekday_index-eq d),
)

-- The Saturday of a Saturday's week is that Saturday.
pub saturday_of-saturday_of : (d : Date) → 6 ≤ d → saturday_of (saturday_of d) ≡ saturday_of d
unfolding saturday_of
saturday_of-saturday_of d h =
    omega (arith, weekday_index-eq d, weekday_index-eq (d - weekday_index d))

seven_days : (s : ℕ) → weekday_key s ≡ saturday → is_calendar_week (plan_dates s 0 7) ≡ true
unfolding is_calendar_week plan_dates
seven_days s h = ground (arith, weekday_key-add s 0 h, weekday_key-add s 6 h)

-- Whole weeks away from a Saturday lies a Saturday.
weeks_on :
    (s a b : ℕ) → weekday_key s ≡ saturday → 7 * b ≤ s → weekday_key (s + 7 * a - 7 * b) ≡ saturday
unfolding index_of
weeks_on s a b h room =
    let at : (s + 1) % 7 ≡ 0 = sym (index_of-weekday_key s) ∙ ap index_of h in
    rw weekday_key-eq (ap weekday_at {y = 0} (omega arith))

-- `week_range` never raises while the limit allows seven days, and its days are a calendar week,
-- Saturday to Friday, for every anchor and every offset that does not leave the calendar.
pub week_range-is_calendar_week :
    (cfg : Settings) (today : Date) (anchor : Date) (offset : ℤ)
    → 7 ≤ cfg.max_plan_range_days
    → 7 * neg_part offset + 6 ≤ anchor
    → (days : List PlanDate) × (week_range cfg today (some anchor) offset ≡ ok days)
      × (is_calendar_week days ≡ true)
unfolding week_range
week_range-is_calendar_week cfg today anchor offset fits room =
    let s = saturday_of anchor in
    let first = s + 7 * pos_part offset - 7 * neg_part offset in
    let sat = saturday_of_lem anchor (omega arith) in
    (
      plan_dates first 0 7,
      range-eq_ok cfg first (first + 6) none 7 (omega arith) (omega arith) fits,
      seven_days first (weeks_on s _ _ sat.0 (omega arith)),
    )
