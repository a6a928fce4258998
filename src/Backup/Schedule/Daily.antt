-- ===== src/Backup/Schedule/Daily.antt =====
-- app/services/backup.py, `is_due`: how often the default schedule runs on one date.
use planmaker.Common.{ℕ, ◌+◌, ◌*◌, ◌≤◌, ◌≡◌, ◌≢◌, sym, ◌↔◌, ◌⊎◌, inl, inr, true, some, arith}
use planmaker.Backup.Row.{daily, BotSettings}
use planmaker.Backup.Schedule.{Local, hour_length, date_of, hour_of, due_by}

-- What a run after another one means.
pub due_by-daily_after :
    (row : BotSettings) (p t : Local)
    → due_by daily row t (some p) ≡ true
    → (date_of p ≢ date_of t) ⊎ (p + 20 * hour_length ≤ t)
unfolding due_by
due_by-daily_after row p t due = ground (arith, due)

due_by-daily_again :
    (row : BotSettings) (p t : Local)
    → row.backup_hour ≤ hour_of t
    → p + 20 * hour_length ≤ t
    → due_by daily row t (some p) ≡ true
unfolding due_by
due_by-daily_again row p t late waited = ground (arith, late, waited)

same_date : (p : Local) (h : ℕ) → hour_of p ≡ h → h ≤ 3 → date_of (p + 20 * hour_length) ≡ date_of p
unfolding date_of hour_of
same_date p h hour small = omega (arith, hour, small)

later_hour : (p : Local) (h : ℕ) → hour_of p ≡ h → h ≤ 3 → h ≤ hour_of (p + 20 * hour_length)
unfolding hour_of
later_hour p h hour small = omega (arith, hour, small)

early_hour :
    (p t : Local) (h : ℕ) → hour_of p ≡ h → date_of t ≡ date_of p → p + 20 * hour_length ≤ t → h ≤ 3
unfolding date_of hour_of
early_hour p t h hour same waited = omega (arith, hour, same, waited)

-- After a run of the daily schedule in its own hour, the schedule is due once more on the same date
-- exactly when that hour is at most 3, which the default is.
pub due_by-daily_second_iff :
    (row : BotSettings) (p : Local)
    → hour_of p ≡ row.backup_hour
    → ((t : Local) × (date_of t ≡ date_of p) × (due_by daily row t (some p) ≡ true))
      ↔ (row.backup_hour ≤ 3)
due_by-daily_second_iff row p hour = (
  λ (t, same, due). elim (due_by-daily_after row p t due) [
    | inl other ↦ absurd (other (sym same))
    | inr waited ↦ early_hour p t row.backup_hour hour same waited
  ],
  λ small. (
    p + 20 * hour_length,
    same_date p row.backup_hour hour small,
    due_by-daily_again row p (p + 20 * hour_length) (later_hour p row.backup_hour hour small)
        (omega arith),
  ),
)
