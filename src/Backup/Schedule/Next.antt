-- ===== src/Backup/Schedule/Next.antt =====
-- app/services/backup.py, `next_run`: the time that the panel announces.
use planmaker.Common.{
  ℕ, zero, suc, ◌+◌, ◌-◌, ◌*◌, ◌%◌, ◌≤◌, ◌<◌, ◌≡◌, refl, sym, ap, ◌∙◌, ◌⊎◌, inl, inr, Bool, true,
  ◌&&◌, none, some, ltb, leb, ◌==◌, if◌then◌else◌, arith, Bool-cases,
}
use planmaker.Common.Result.{ok}
use planmaker.Calendar.{weekday_index}
use planmaker.Calendar.Weekdays.{weekday_index-eq}
use planmaker.Backup.Row.{BackupSchedule, hourly, hours, daily, weekly, BotSettings, IsValid}
use planmaker.Backup.Schedule.{
  Local, hour_length, day_length, date_of, hour_of, every_hours, due_by, next_day, next_weekday,
  hour_start, at_hour, next_by, next_run,
}

date_of-next : (t : Local) → date_of (t + day_length) ≡ date_of t + 1
unfolding date_of
date_of-next t = omega arith

-- A date and an hour make a time of that date and hour.
date_of-at : (d h : ℕ) → h < 24 → date_of (d * day_length + h * hour_length) ≡ d
unfolding date_of
date_of-at d h small = omega (arith, small)

hour_of-at : (d h : ℕ) → h < 24 → hour_of (d * day_length + h * hour_length) ≡ h
unfolding hour_of
hour_of-at d h small = omega (arith, small)

at_hour-near :
    (t : Local) (h : ℕ) → h < 24 → t < date_of t * day_length + h * hour_length + day_length
unfolding date_of
at_hour-near t h small = omega (arith, small)

at_hour-below :
    (t : Local) (h : ℕ) → h < 24 → date_of t * day_length + h * hour_length < t + day_length
unfolding date_of
at_hour-below t h small = omega (arith, small)

next_day-after :
    (current : Local) (h : ℕ)
    → h < 24
    → (t : Local) × (next_day 2 (date_of current * day_length + h * hour_length) current ≡ some t)
      × (current < t)
      × (t ≤ current + day_length)
      × (hour_of t ≡ h)
unfolding next_day
next_day-after current h small =
    let candidate = date_of current * day_length + h * hour_length in
    let again = (date_of current + 1) * day_length + h * hour_length in
    elim (Bool-cases (leb candidate current)) [
      | inl past ↦ (
        again,
        ground (arith, past, at_hour-near current h small),
        omega (arith, at_hour-near current h small),
        ground (arith, past),
        hour_of-at (date_of current + 1) h small,
      )
      | inr ahead ↦ (
        candidate,
        rw ahead refl,
        ground (arith, ahead),
        omega (arith, at_hour-below current h small),
        hour_of-at (date_of current) h small,
      )
    ]

weekday_index-shift : (d k : ℕ) → weekday_index (d + 1 + k) ≡ weekday_index (d + suc k)
weekday_index-shift d k = omega (arith, weekday_index-eq (d + 1 + k), weekday_index-eq (d + suc k))

next_weekday-shift :
    (rounds target d h : ℕ) (current : Local)
    → next_weekday rounds target (d * day_length + h * hour_length + day_length) current
      ≡ next_weekday rounds target ((d + 1) * day_length + h * hour_length) current
next_weekday-shift rounds target d h current =
    let same : d * day_length + h * hour_length + day_length
        ≡ (d + 1) * day_length + h * hour_length =
      omega arith in
    rw same refl

-- The test of the loop over weekdays.
abbrev is_next : ℕ → Local → Local → Bool
is_next target candidate current =
    (weekday_index (date_of candidate) == target) && ltb current candidate

is_next-true :
    (target d h : ℕ) (current : Local)
    → h < 24
    → is_next target (d * day_length + h * hour_length) current ≡ true
    → (weekday_index (d + 0) ≡ target) × (current < (d + 0) * day_length + h * hour_length)
is_next-true target d h current small stop = ground (arith, date_of-at d h small, stop)

-- The loop over weekdays stops at the first candidate `k` days on that is on the weekday and ahead.
next_weekday-finds :
    (k rounds target d h : ℕ) (current : Local)
    → k < rounds
    → h < 24
    → weekday_index (d + k) ≡ target
    → current < (d + k) * day_length + h * hour_length
    → (j : ℕ) × (j ≤ k)
      × (next_weekday rounds target (d * day_length + h * hour_length) current
          ≡ (d + j) * day_length + h * hour_length)
      × (weekday_index (d + j) ≡ target)
      × (current < (d + j) * day_length + h * hour_length)
unfolding next_weekday
next_weekday-finds k zero target d h current few small here ahead = absurd (omega (arith, few))
next_weekday-finds zero (suc rounds) target d h current few small here ahead =
    (0, omega arith, ground (arith, date_of-at d h small, here, ahead), here, ahead)
next_weekday-finds (suc k) (suc rounds) target d h current few small here ahead =
    elim (Bool-cases (is_next target (d * day_length + h * hour_length) current)) [
      | inl stop ↦
          let (there, later) = is_next-true target d h current small stop in
          (0, omega arith, rw stop (omega arith), there, later)
      | inr on ↦
          let (j, early, found, there, later) =
            next_weekday-finds k rounds target (d + 1) h current (omega (arith, few)) small
              (weekday_index-shift d k ∙ here) (omega (arith, ahead)) in
          (
            suc j,
            omega (arith, early),
            rw on (next_weekday-shift rounds target d h current ∙ found ∙ omega arith),
            sym (weekday_index-shift d j) ∙ there,
            omega (arith, later),
          )
    ]

compare-cases : (a b : ℕ) → (a < b) ⊎ (b ≤ a)
compare-cases a b = ground arith

zero-cases : (n : ℕ) → (n ≡ 0) ⊎ (1 ≤ n)
zero-cases n = ground arith

days_to : ℕ → ℕ → ℕ
days_to weekday target = (target + 7 - weekday) % 7

days_to-reaches :
    (d target : ℕ)
    → target < 7
    → (days_to (weekday_index d) target < 7)
      × (weekday_index (d + days_to (weekday_index d) target) ≡ target)
      × (weekday_index (d + (days_to (weekday_index d) target + 7)) ≡ target)
unfolding days_to
days_to-reaches d target small =
    let k = days_to (weekday_index d) target in
    (
      omega arith,
      omega (arith, small, weekday_index-eq d, weekday_index-eq (d + k)),
      omega (arith, small, weekday_index-eq d, weekday_index-eq (d + (k + 7))),
    )

-- What a schedule's next time promises: it is ahead, within the schedule's period, and the
-- schedule's own tests on the hour and the weekday pass.
abbrev pub IsNext : BackupSchedule → BotSettings → Local → Local → Type 0
IsNext hourly row current t = (current < t) × (t ≤ current + hour_length)
IsNext hours row current t = (current < t) × (t ≤ current + every_hours row * hour_length)
IsNext daily row current t =
    (current < t) × (t ≤ current + day_length) × (due_by daily row t none ≡ true)
IsNext weekly row current t =
    (current < t) × (t ≤ current + 7 * day_length) × (due_by weekly row t none ≡ true)

-- The time of the loop over weekdays.
abbrev IsFound : Local → ℕ → ℕ → Local → Type 0
IsFound current h target t =
    (next_weekday 8 target (date_of current * day_length + h * hour_length) current ≡ t)
    × (current < t)
    × (t ≤ current + 7 * day_length)
    × (weekday_index (date_of t) ≡ target)
    × (hour_of t ≡ h)

IsFound-by :
    (current : Local) (h target k : ℕ)
    → h < 24
    → k < 8
    → weekday_index (date_of current + k) ≡ target
    → current < (date_of current + k) * day_length + h * hour_length
    → (date_of current + k) * day_length + h * hour_length ≤ current + 7 * day_length
    → (t : Local) × IsFound current h target t
IsFound-by current h target k small few here ahead near =
    let d = date_of current in
    let (j, early, found, there, later) =
      next_weekday-finds k 8 target d h current few small here ahead in
    (
      (d + j) * day_length + h * hour_length,
      (
        found,
        later,
        omega (arith, early, near),
        ap weekday_index (date_of-at (d + j) h small) ∙ there,
        hour_of-at (d + j) h small,
      ),
    )

next_weekday-after :
    (current : Local) (h target : ℕ)
    → h < 24
    → target < 7
    → (t : Local) × IsFound current h target t
next_weekday-after current h target small named =
    let d = date_of current in
    let k = days_to (weekday_index d) target in
    let (close, here, week_on) = days_to-reaches d target named in
    let near = at_hour-near current h small in
    let below = at_hour-below current h small in
    elim (compare-cases current (d * day_length + h * hour_length)) [
      | inl ahead ↦
          IsFound-by current h target k small (omega (arith, close)) here (omega (arith, ahead))
            (omega (arith, below, close))
      | inr past ↦ elim (zero-cases k) [
        | inl same ↦
            IsFound-by current h target (k + 7) small (omega (arith, same)) week_on
              (omega (arith, near)) (omega (arith, past, same))
        | inr later ↦
            IsFound-by current h target k small (omega (arith, close)) here
              (omega (arith, near, later)) (omega (arith, past, close))
      ]
    ]

every_hours-positive : (row : BotSettings) → 1 ≤ every_hours row
unfolding every_hours
every_hours-positive row = omega arith

hour_start-near :
    (t : Local) (n : ℕ)
    → 1 ≤ n
    → (t < hour_start t + n * hour_length) × (hour_start t + n * hour_length ≤ t + n * hour_length)
unfolding hour_start
hour_start-near t n some_hours = (omega (arith, some_hours), omega arith)

at_hour-eq :
    (h : ℕ) (t : Local) → h < 24 → at_hour h t ≡ ok (date_of t * day_length + h * hour_length)
unfolding at_hour
at_hour-eq h t small = ground (arith, small)

due_by-weekly_at :
    (row : BotSettings) (t : Local)
    → weekday_index (date_of t) ≡ row.backup_weekday
    → hour_of t ≡ row.backup_hour
    → due_by weekly row t none ≡ true
unfolding due_by
due_by-weekly_at row t day hour = ground (arith, day, hour)

pub next_by-IsNext :
    (schedule : BackupSchedule) (row : BotSettings) (current : Local)
    → IsValid row
    → (t : Local) × (next_by schedule row current ≡ ok (some t)) × IsNext schedule row current t
unfolding next_by hour_start at_hour due_by
next_by-IsNext hourly row current valid = (_, refl, (omega arith, omega arith))
next_by-IsNext hours row current valid =
    (_, refl, hour_start-near current (every_hours row) (every_hours-positive row))
next_by-IsNext daily row current valid =
    let (t, found, ahead, near, hour) = next_day-after current row.backup_hour valid.0 in
    (
      t,
      rw (at_hour-eq row.backup_hour current valid.0) (ap (λ o. ok o) found),
      (ahead, near, ground (arith, hour)),
    )
next_by-IsNext weekly row current valid =
    let (t, (found, ahead, near, day, hour)) =
      next_weekday-after current row.backup_hour row.backup_weekday valid.0 valid.1 in
    (
      t,
      rw (at_hour-eq row.backup_hour current valid.0) (ap (λ r. ok (some r)) found),
      (ahead, near, due_by-weekly_at row t day hour),
    )

-- With a valid row and the schedule on, the panel announces a time: it is ahead and at most one
-- period away, and a daily or weekly schedule that has never run is due at that time.
pub next_run-IsNext :
    (row : BotSettings) (current : Local)
    → IsValid row
    → row.backup_enabled ≡ true
    → (t : Local) × (next_run row current ≡ ok (some t)) × IsNext row.backup_schedule row current t
unfolding next_run
next_run-IsNext row current valid enabled =
    let (t, announced, next) = next_by-IsNext row.backup_schedule row current valid in
    (
      t,
      ap (λ on. if on then next_by row.backup_schedule row current else ok none) enabled
          ∙ announced,
      next,
    )
