-- ===== src/Backup/Service.antt =====
-- app/services/backup.py: `BackupService`, which the panel, the scheduler and the command line
-- call, and one tick of `BackupScheduler`.
--
-- The outcome of `create_backup`, the answers of Telegram and of the file system and the clock are
-- arguments. The texts of audit details and log messages are left out.
pub mod Valid
pub mod Runs
use planmaker.Common.{
  ℕ, suc, ◌+◌, ◌-◌, ◌%◌, min, max, Bool, true, false, not, ◌&&◌, Option, none, some, List, [], ◌∷◌,
  ◌++◌, if◌then◌else◌, take, select, length, map,
}
use planmaker.Common.Int.{ℤ, pos, negsuc}
use planmaker.Common.Result.{Result, value_error}
use planmaker.Common.Text.{Text, codes, join, is_empty}
use planmaker.Database.{Time, AuditRow}
use planmaker.Backup.Literal.{int_text}
use planmaker.Backup.Recipients.{recipient_list}
use planmaker.Backup.Row.{
  BackupSchedule, BotSettings, BackupDefaults, get, clamp, schedule_of, join_ids, or_none,
}
use planmaker.Backup.Logs.{
  BackupStatus, ok, failed, Trigger, auto, manual, Entry, BackupLog, log_row,
}
use planmaker.Backup.Prune.{Archive, BackupDir, prune_backups}
use planmaker.Backup.Schedule.{Local, Moment, aware, is_due}
use Prim.Native.String.{String}

-- The tables that the service reads and writes, and the backup directory.
pub record Panel : Type 0 where
  pub row : Option BotSettings
  pub logs : List BackupLog
  pub next_log : ℕ
  pub audit : List AuditRow
  pub dir : BackupDir

abbrev pub audited : String → Option ℕ → Panel → Panel
audited action actor_id panel = record panel {
  audit =
      panel.audit
      ++ record { action = action; actor_id = actor_id; plan_id = none; student_id = none } ∷ [];
}

-- `row = await self.settings_repo.get()`, an assignment to columns, and the audit entry.
abbrev pub changed :
    BackupDefaults → (BotSettings → BotSettings) → String → Option ℕ → Panel → Panel
changed env assign action actor_id panel =
    audited action actor_id (record panel { row = some (assign (get env panel.row)) })

unfoldable pub set_enabled : BackupDefaults → Bool → Option ℕ → Panel → Panel
unfolding get
set_enabled env enabled actor_id panel =
    changed env
      (λ row. record row {
        backup_enabled = enabled;
        backup_last_error = if enabled then none else row.backup_last_error;
      })
      (if enabled then "backup.auto_enabled" else "backup.auto_disabled") actor_id panel

-- `schedule: BackupSchedule | str`
pub data ScheduleName : Type 0 where
  member : BackupSchedule → ScheduleName
  named : Text → ScheduleName

abbrev pub schedule_member : ScheduleName → Option BackupSchedule
schedule_member (member schedule) = some schedule
schedule_member (named value) = schedule_of value

abbrev pub schedule_set :
    BackupDefaults → Option BackupSchedule → Option ℕ → Panel → Result (Unit {0}) × Panel
schedule_set env none actor_id panel =
    (Result.err value_error, record panel { row = some (get env panel.row) })
schedule_set env (some schedule) actor_id panel = (
  Result.ok tt,
  changed env (λ row. record row { backup_schedule = schedule }) "backup.schedule_changed" actor_id
      panel,
)

-- A text that names no schedule is a ValueError; the settings row is there behind it.
unfoldable pub set_schedule :
    BackupDefaults → ScheduleName → Option ℕ → Panel → Result (Unit {0}) × Panel
unfolding get schedule_of
set_schedule env schedule actor_id panel =
    schedule_set env (schedule_member schedule) actor_id panel

-- `int(hour) % 24`
abbrev pub hour_modulo : ℤ → ℕ
hour_modulo (pos n) = n % 24
hour_modulo (negsuc n) = 23 - n % 24

unfoldable pub set_hour : BackupDefaults → ℤ → Option ℕ → Panel → Panel
unfolding get
set_hour env hour actor_id panel =
    changed env (λ row. record row { backup_hour = hour_modulo hour }) "backup.hour_changed"
      actor_id panel

unfoldable pub set_weekday : BackupDefaults → ℤ → Option ℕ → Panel → Panel
unfolding get
set_weekday env weekday actor_id panel =
    changed env (λ row. record row { backup_weekday = clamp 0 6 weekday }) "backup.weekday_changed"
      actor_id panel

unfoldable pub set_interval_hours : BackupDefaults → ℤ → Option ℕ → Panel → Panel
unfolding get
set_interval_hours env hours actor_id panel =
    changed env (λ row. record row { backup_every_hours = clamp 1 72 hours })
      "backup.interval_changed" actor_id panel

unfoldable pub set_keep : BackupDefaults → ℤ → Option ℕ → Panel → Panel
unfolding get
set_keep env keep actor_id panel =
    changed env (λ row. record row { backup_keep = clamp 1 60 keep }) "backup.retention_changed"
      actor_id panel

unfoldable pub set_recipients : BackupDefaults → List ℤ → Option ℕ → Panel → Panel
unfolding get join_ids
set_recipients env chat_ids actor_id panel =
    changed env (λ row. record row { backup_recipients = or_none (join_ids chat_ids) })
      "backup.recipients_changed" actor_id panel

-- What `create_backup` returns.
pub record BackupArtifact : Type 0 where
  pub path : Text
  pub filename : Text
  pub size_bytes : ℕ
  pub engine : Text
  pub tables : ℕ
  pub rows : ℕ
  pub sha256 : Text
  pub duration_ms : ℕ

-- It raises, with the message of the exception, or it leaves an archive in the directory.
pub data Created : Type 0 where
  raised : Text → Created
  made : BackupArtifact → Created

-- What the surroundings answer during one run: `bot.send_document` to a chat returns, and `unlink`
-- of a path succeeds.
pub record Surroundings : Type 0 where
  pub created : Created
  pub elapsed_ms : ℕ
  pub sends : ℤ → Bool
  pub deletable : Text → Bool
  pub clock : Time

-- The delivered and the failed recipients.
unfoldable pub deliver : (ℤ → Bool) → List ℤ → List ℤ × List ℤ
deliver sends [] = ([], [])
deliver sends (chat_id ∷ chat_ids) =
    let (delivered, lost) = deliver sends chat_ids in
    if sends chat_id then (chat_id ∷ delivered, lost) else (delivered, chat_id ∷ lost)

abbrev pub recorded : Time → Entry → Panel → Panel
recorded now entry panel = record panel {
  logs = panel.logs ++ log_row panel.next_log now entry ∷ [];
  next_log = suc panel.next_log;
}

-- The error of an entry whose delivery failed for some: the code lists them in a sentence.
abbrev pub lost_text : List ℤ → Option Text
lost_text [] = none
lost_text (i ∷ ids) =
    some (codes "delivery failed for: " ++ join (codes ", ") (map int_text (i ∷ ids)))

abbrev pub failed_entry : Trigger → Option ℕ → List ℤ → ℕ → Text → Entry
failed_entry trigger actor_id recipients duration message = record {
  status = failed;
  trigger = trigger;
  filename = none;
  path = none;
  size_bytes = 0;
  tables = 0;
  rows = 0;
  engine = none;
  duration_ms = duration;
  recipients = or_none (join_ids recipients);
  delivered = 0;
  sha256 = none;
  error = some message;
  created_by_id = actor_id;
}

abbrev pub made_entry : Trigger → Option ℕ → List ℤ → BackupArtifact → List ℤ × List ℤ → Entry
made_entry trigger actor_id recipients artifact sent = record {
  status = ok;
  trigger = trigger;
  filename = some artifact.filename;
  path = some artifact.path;
  size_bytes = artifact.size_bytes;
  tables = artifact.tables;
  rows = artifact.rows;
  engine = some artifact.engine;
  duration_ms = artifact.duration_ms;
  recipients = or_none (join_ids recipients);
  delivered = length sent.0;
  sha256 = some artifact.sha256;
  error = lost_text sent.1;
  created_by_id = actor_id;
}

abbrev pub is_auto : Trigger → String → String → String
is_auto auto a b = a
is_auto manual a b = b

abbrev pub with_archive : Time → BackupArtifact → BackupDir → BackupDir
with_archive now artifact dir = record dir {
  archives = dir.archives ++ record { path = artifact.path; mtime = now } ∷ [];
}

-- The rest of `run` after `create_backup`, whose row and recipients are known.
abbrev pub finish_run :
    Surroundings
    → Trigger
    → Option ℕ
    → BotSettings
    → List ℤ
    → Created
    → Panel
    → Option BackupArtifact × Panel
finish_run world trigger actor_id row recipients (raised message) panel =
    let entry = failed_entry trigger actor_id recipients world.elapsed_ms message in
    (
      none,
      audited "backup.failed" actor_id (record (recorded world.clock entry panel) {
        row = some (record row { backup_last_error = some (take 1000 message) });
      }),
    )
finish_run world trigger actor_id row recipients (made artifact) panel =
    let sent = deliver world.sends recipients in
    let entry = made_entry trigger actor_id recipients artifact sent in
    let (removed, dir) =
      prune_backups world.deletable row.backup_keep (with_archive world.clock artifact panel.dir) in
    (
      some artifact,
      audited (is_auto trigger "backup.auto" "backup.created") actor_id
          (record (recorded world.clock entry (record panel { dir = dir })) {
            row =
                some
                  (record row { backup_last_run_at = some world.clock; backup_last_error = none });
          }),
    )

abbrev pub started :
    (List ℤ → Created → Panel → Option BackupArtifact × Panel)
    → Result (List ℤ)
    → Created
    → Panel
    → Result (Option BackupArtifact) × Panel
started finish (Result.err e) created panel = (Result.err e, panel)
started finish (Result.ok recipients) created panel =
    let (artifact, after) = finish recipients created panel in (Result.ok artifact, after)

-- `run`, with `has_bot` for `bot is not None`. Reading the recipients may raise before anything is
-- written but the settings row.
unfoldable pub run :
    BackupDefaults
    → Surroundings
    → Trigger
    → Option ℕ
    → Bool
    → Bool
    → Panel
    → Result (Option BackupArtifact) × Panel
unfolding get recipient_list deliver prune_backups join_ids log_row
run env world trigger actor_id send has_bot panel =
    let row = get env panel.row in
    let recipients = if send && has_bot then recipient_list env row else Result.ok [] in
    started (finish_run world trigger actor_id row) recipients world.created
      (record panel { row = some row })

-- What a tick leaves in `last_result`.
pub data TickResult : Type 0 where
  not_due skipped failed_backup : TickResult
  done : BackupArtifact → TickResult

abbrev pub tick_result : Option BackupArtifact → TickResult
tick_result none = failed_backup
tick_result (some artifact) = done artifact

-- The end of the second session: a commit, or an exception that rolls it back.
abbrev pub committed : Result (Option BackupArtifact) × Panel → Panel → Result TickResult × Panel
committed (Result.err e, flushed) panel = (Result.err e, panel)
committed (Result.ok artifact, flushed) panel = (Result.ok (tick_result artifact), flushed)

-- `BackupScheduler.tick`: the first session ends without a commit, and `locked` says whether the
-- advisory lock was obtained.
unfoldable pub tick :
    BackupDefaults → Surroundings → (Time → Local) → Time → Bool → Panel → Result TickResult × Panel
unfolding run is_due get
tick env world astimezone now locked panel =
    let finished = committed (run env world auto none true true panel) panel in
    if not (is_due astimezone (get env panel.row) (aware now) none)
    then (Result.ok not_due, panel)
    else if not locked
    then (Result.ok skipped, panel)
    else finished
