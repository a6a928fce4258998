-- ===== src/Backup/Schedule/Spacing.antt =====
-- app/services/backup.py, `is_due`: the runs that follow each other.
use planmaker.Common.{
  ℕ, suc, ◌/◌, ◌+◌, ◌*◌, ◌≤◌, ◌<◌, ◌≡◌, inl, inr, true, some, List, [], ◌∷◌, arith, length,
}
use planmaker.Backup.Row.{BackupSchedule, hourly, hours, daily, weekly, BotSettings}
use planmaker.Backup.Schedule.Daily.{due_by-daily_after}
use planmaker.Backup.Schedule.{Local, hour_length, day_length, date_of, every_hours, due_by}

-- The times at which a schedule has run, each due after the one before it.
abbrev pub AreRuns : BackupSchedule → BotSettings → Local → List Local → Type 0
AreRuns schedule row p [] = Unit
AreRuns schedule row p (t ∷ ts) =
    (p ≤ t) × (due_by schedule row t (some p) ≡ true) × AreRuns schedule row t ts

-- The least time between two runs of a schedule.
abbrev pub gap : BackupSchedule → BotSettings → ℕ
gap hourly row = hour_length
gap hours row = every_hours row * hour_length
gap daily row = 0
gap weekly row = 6 * day_length + 20 * hour_length

abbrev pub last_of : Local → List Local → Local
last_of t [] = t
last_of t (s ∷ ts) = last_of s ts

due_by-gap :
    (schedule : BackupSchedule) (row : BotSettings) (p t : Local)
    → p ≤ t
    → due_by schedule row t (some p) ≡ true
    → p + gap schedule row ≤ t
unfolding due_by
due_by-gap hourly row p t order due = ground (arith, order, due)
due_by-gap hours row p t order due = ground (arith, order, due)
due_by-gap daily row p t order due = omega (arith, order)
due_by-gap weekly row p t order due = ground (arith, order, due)

runs_gap :
    (schedule : BackupSchedule) (row : BotSettings) (p : Local) (runs : List Local)
    → AreRuns schedule row p runs
    → p + length runs * gap schedule row ≤ last_of p runs
runs_gap schedule row p [] h = omega arith
runs_gap schedule row p (t ∷ ts) h =
    grind (arith, due_by-gap schedule row p t h.0 h.1, runs_gap schedule row t ts h.2)

-- A daily schedule runs at most twice on one date: of a run and the two after it, the last is on
-- a later date than the first.
pub AreRuns-daily_dates :
    (row : BotSettings) (p s t : Local) → AreRuns daily row p (s ∷ t ∷ []) → date_of p < date_of t
unfolding due_by date_of
AreRuns-daily_dates row p s t h = elim (due_by-daily_after row p s h.1) [
  | inl other ↦ omega (arith, other, h.0, h.2.0)
  | inr waited ↦ elim (due_by-daily_after row s t h.2.1) [
    | inl other ↦ omega (arith, other, h.0, h.2.0)
    | inr again ↦ omega (arith, waited, again)
  ]
]

date_of_mono : (p t : Local) → p ≤ t → date_of p ≤ date_of t
unfolding date_of
date_of_mono p t h = omega (arith, h)

half_suc : (n : ℕ) → suc (suc n) / 2 ≡ suc (n / 2)
half_suc n = omega arith

daily_dates :
    (row : BotSettings) (p : Local) (runs : List Local)
    → AreRuns daily row p runs
    → date_of p + length runs / 2 ≤ date_of (last_of p runs)
daily_dates row p [] h = omega arith
daily_dates row p (s ∷ []) h = omega (arith, date_of_mono p s h.0)
daily_dates row p (s ∷ t ∷ ts) h =
    let later = AreRuns-daily_dates row p s t (h.0, h.1, (h.2.0, h.2.1, tt)) in
    omega (arith, later, daily_dates row t ts h.2.2, half_suc (length ts))

-- How far the last of `n` runs lies behind the run at `p`: for the default schedule in dates.
abbrev pub IsSpread : BackupSchedule → BotSettings → Local → List Local → Type 0
IsSpread hourly row p runs = p + length runs * hour_length ≤ last_of p runs
IsSpread hours row p runs = p + length runs * (every_hours row * hour_length) ≤ last_of p runs
IsSpread weekly row p runs = p + length runs * (6 * day_length + 20 * hour_length) ≤ last_of p runs
IsSpread daily row p runs = date_of p + length runs / 2 ≤ date_of (last_of p runs)

-- However often the scheduler looks, the runs of a schedule are spread out. The last of `n` runs
-- after one at `p` is at least `n` hours later, `n` times the chosen number of hours, or `n` times 6
-- days and 20 hours; for the daily schedule it is at least `n / 2` dates later.
pub AreRuns-IsSpread :
    (schedule : BackupSchedule) (row : BotSettings) (p : Local) (runs : List Local)
    → AreRuns schedule row p runs
    → IsSpread schedule row p runs
AreRuns-IsSpread hourly row p runs h = runs_gap hourly row p runs h
AreRuns-IsSpread hours row p runs h = runs_gap hours row p runs h
AreRuns-IsSpread daily row p runs h = daily_dates row p runs h
AreRuns-IsSpread weekly row p runs h = runs_gap weekly row p runs h
