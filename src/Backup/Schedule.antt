-- ===== src/Backup/Schedule.antt =====
-- app/services/backup.py: `is_due` and `next_run`, when an automatic backup is taken.
--
-- A local time is the microseconds of its wall clock from the start of ordinal 0. Two aware times
-- of one zone are subtracted by their wall clocks, as in Python. A difference of natural numbers
-- stops at 0, and it is only compared with a positive interval, which a negative one is below.
pub mod Daily
pub mod Spacing
pub mod Next
use planmaker.Common.{
  ℕ, zero, suc, ◌+◌, ◌-◌, ◌*◌, ◌/◌, ◌%◌, max, Bool, true, false, not, ◌&&◌, Option, none, some, ltb,
  leb, ◌==◌, if◌then◌else◌,
}
use planmaker.Common.Result.{Result, ok, err, ◌>>=◌, value_error}
use planmaker.Calendar.{Date, weekday_index}
use planmaker.Database.{Time}
use planmaker.Backup.Row.{BackupSchedule, hourly, hours, daily, weekly, BotSettings}

abbrev pub Local : Type 0
Local = ℕ

abbrev pub hour_length : ℕ
hour_length = 3600000000

abbrev pub day_length : ℕ
day_length = 86400000000

-- `t.date()` and `t.hour`
unfoldable pub date_of : Local → Date
date_of t = t / day_length

unfoldable pub hour_of : Local → ℕ
hour_of t = t % day_length / hour_length

-- `max(1, int(row.backup_every_hours or 12))`
unfoldable pub every_hours : BotSettings → ℕ
every_hours row = max 1 (if row.backup_every_hours == 0 then 12 else row.backup_every_hours)

-- The argument `now`, aware or naive.
pub data Moment : Type 0 where
  aware : Time → Moment
  naive : Local → Moment

-- `previous is None or (current - previous) >= interval`
unfoldable pub elapsed : Option Local → Local → ℕ → Bool
elapsed none current interval = true
elapsed (some previous) current interval = leb interval (current - previous)

-- The last test of the default schedule.
unfoldable pub new_day_or_elapsed : Option Local → Local → Bool
unfolding date_of
new_day_or_elapsed none current = true
new_day_or_elapsed (some previous) current =
    if not (date_of previous == date_of current)
    then true
    else leb (20 * hour_length) (current - previous)

-- The tests of each schedule, on the zone's times.
unfoldable pub due_by : BackupSchedule → BotSettings → Local → Option Local → Bool
unfolding date_of hour_of every_hours elapsed new_day_or_elapsed weekday_index
due_by hourly row current previous = elapsed previous current hour_length
due_by hours row current previous = elapsed previous current (every_hours row * hour_length)
due_by weekly row current previous =
    if not (weekday_index (date_of current) == row.backup_weekday)
    then false
    else if ltb (hour_of current) row.backup_hour
    then false
    else elapsed previous current (6 * day_length + 20 * hour_length)
due_by daily row current previous =
    if ltb (hour_of current) row.backup_hour then false else new_day_or_elapsed previous current

abbrev pub in_zone : (Time → Local) → Moment → Local
in_zone astimezone (aware t) = astimezone t
in_zone astimezone (naive t) = t

abbrev pub in_zone? : (Time → Local) → Option Time → Option Local
in_zone? astimezone none = none
in_zone? astimezone (some t) = some (astimezone t)

-- `last_run or row.backup_last_run_at`
abbrev pub or_else : Option Time → Option Time → Option Time
or_else none t = t
or_else (some s) t = some s

unfoldable pub is_due : (Time → Local) → BotSettings → Moment → Option Time → Bool
unfolding due_by
is_due astimezone row now last_run =
    if row.backup_enabled
    then due_by row.backup_schedule row (in_zone astimezone now)
        (in_zone? astimezone (or_else last_run row.backup_last_run_at))
    else false

-- `while candidate <= current: candidate += timedelta(days=1)`
unfoldable pub next_day : ℕ → Local → Local → Option Local
next_day zero candidate current = none
next_day (suc fuel) candidate current =
    let later = next_day fuel (candidate + day_length) current in
    if leb candidate current then later else some candidate

-- `for _ in range(8)`
unfoldable pub next_weekday : ℕ → ℕ → Local → Local → Local
unfolding date_of weekday_index
next_weekday zero target candidate current = candidate
next_weekday (suc rounds) target candidate current =
    let later = next_weekday rounds target (candidate + day_length) current in
    if (weekday_index (date_of candidate) == target) && ltb current candidate
    then candidate
    else later

-- `current.replace(minute=0, second=0, microsecond=0)`
unfoldable pub hour_start : Local → Local
hour_start t = t - t % hour_length

-- `current.replace(hour=…, minute=0, second=0, microsecond=0)`: a ValueError for a wrong hour.
unfoldable pub at_hour : ℕ → Local → Result Local
unfolding date_of
at_hour hour t =
    if ltb hour 24 then ok (date_of t * day_length + hour * hour_length) else err value_error

-- The candidate, taken on by the schedule's loop. Two rounds are enough for the loop of the default
-- schedule.
unfoldable pub next_by : BackupSchedule → BotSettings → Local → Result (Option Local)
unfolding next_day next_weekday hour_start at_hour every_hours
next_by hourly row current = ok (some (hour_start current + hour_length))
next_by hours row current = ok (some (hour_start current + every_hours row * hour_length))
next_by daily row current = do
  candidate ← at_hour row.backup_hour current
  ok (next_day 2 candidate current)
next_by weekly row current = do
  candidate ← at_hour row.backup_hour current
  ok (some (next_weekday 8 row.backup_weekday candidate current))

-- `ok none` for a schedule that is off.
unfoldable pub next_run : BotSettings → Local → Result (Option Local)
unfolding next_by
next_run row current =
    let next = next_by row.backup_schedule row current in
    if row.backup_enabled then next else ok none
