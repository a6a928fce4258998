-- ===== src/Backup/Row.antt =====
-- app/db/models.py: `BotSettings` and `BackupSchedule`, the single row of backup settings, and
-- `SettingsRepository` of app/repositories/repositories.py, which creates it.
use planmaker.Common.{ℕ, ◌≤◌, ◌<◌, min, max, Bool, Option, none, some, List, map, if◌then◌else◌}
use planmaker.Common.Int.{ℤ, pos_part}
use planmaker.Common.Text.{Text, codes, is_empty, text_eq, join}
use planmaker.Database.{Time}
use planmaker.Backup.Literal.{int_text}

pub data BackupSchedule : Type 0 where
  hourly hours daily weekly : BackupSchedule

-- The columns of the row, without its id and updated_at.
pub record BotSettings : Type 0 where
  pub backup_enabled : Bool
  pub backup_schedule : BackupSchedule
  pub backup_hour : ℕ
  pub backup_weekday : ℕ
  pub backup_every_hours : ℕ
  pub backup_keep : ℕ
  pub backup_recipients : Option Text
  pub backup_last_run_at : Option Time
  pub backup_last_error : Option Text

-- The settings of app/config.py that seed the row, from environment variables, and `str.lower`.
pub record BackupDefaults : Type 0 where
  pub backup_auto_enabled : Bool
  pub backup_schedule : Text
  pub backup_hour : ℤ
  pub backup_weekday : ℤ
  pub backup_every_hours : ℤ
  pub backup_keep : ℤ
  pub backup_chat_ids : List ℤ
  pub admin_ids : List ℤ
  pub lower : Text → Text

-- `min(high, max(low, int(n)))`
abbrev pub clamp : ℕ → ℕ → ℤ → ℕ
clamp low high n = min high (max low (pos_part n))

-- `BackupSchedule(value)`: `none` is the ValueError.
unfoldable pub schedule_of : Text → Option BackupSchedule
schedule_of value =
    if text_eq value (codes "hourly")
    then some hourly
    else if text_eq value (codes "hours")
    then some hours
    else if text_eq value (codes "daily")
    then some daily
    else if text_eq value (codes "weekly")
    then some weekly
    else none

abbrev or_daily : Option BackupSchedule → BackupSchedule
or_daily none = daily
or_daily (some schedule) = schedule

unfoldable pub schedule_from : BackupDefaults → Text → BackupSchedule
unfolding schedule_of
schedule_from env value =
    or_daily (schedule_of (env.lower (if is_empty value then codes "daily" else value)))

-- `text or None`
abbrev pub or_none : Text → Option Text
or_none t = if is_empty t then none else some t

-- `",".join(str(i) for i in ids)`
unfoldable pub join_ids : List ℤ → Text
unfolding join int_text
join_ids ids = join (codes ",") (map int_text ids)

-- `SettingsRepository.get`: the row of the table, or a new one.
unfoldable pub get : BackupDefaults → Option BotSettings → BotSettings
unfolding schedule_from join_ids
get env (some row) = row
get env none = record {
  backup_enabled = env.backup_auto_enabled;
  backup_schedule = schedule_from env env.backup_schedule;
  backup_hour = clamp 0 23 env.backup_hour;
  backup_weekday = clamp 0 6 env.backup_weekday;
  backup_every_hours = max 1 (pos_part env.backup_every_hours);
  backup_keep = max 1 (pos_part env.backup_keep);
  backup_recipients = or_none (join_ids env.backup_chat_ids);
  backup_last_run_at = none;
  backup_last_error = none;
}

-- The values that the schedules and the retention rely on.
abbrev pub IsValid : BotSettings → Type 0
IsValid row =
    (row.backup_hour < 24)
    × (row.backup_weekday < 7)
    × (1 ≤ row.backup_every_hours)
    × (1 ≤ row.backup_keep)
