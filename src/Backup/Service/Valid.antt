-- ===== src/Backup/Service/Valid.antt =====
-- app/services/backup.py, `BackupService`: the values of the settings row.
use planmaker.Common.{
  ℕ, ◌<◌, Bool, true, false, not, Option, none, some, List, [], ◌∷◌, if◌then◌else◌, arith,
}
use planmaker.Common.Int.{ℤ, pos, negsuc}
use planmaker.Common.Result.{Result}
use planmaker.Database.{Time}
use planmaker.Backup.Row.{BackupSchedule, BotSettings, BackupDefaults, get, IsValid}
use planmaker.Backup.Logs.{Trigger, auto}
use planmaker.Backup.Schedule.{Local, aware, is_due}
use planmaker.Backup.Service.{
  Panel, Surroundings, Created, raised, made, hour_modulo, set_enabled, ScheduleName,
  schedule_member, schedule_set, set_schedule, set_hour, set_weekday, set_interval_hours, set_keep,
  set_recipients, run, tick, started, TickResult, not_due, skipped, BackupArtifact, finish_run,
  committed,
}

-- A row that is not there yet is created with valid values.
abbrev pub IsValidRow : Option BotSettings → Type 0
IsValidRow none = Unit
IsValidRow (some row) = IsValid row

pub get-IsValid :
    (env : BackupDefaults) (o : Option BotSettings) → IsValidRow o → IsValid (get env o)
unfolding get
get-IsValid env none h = (omega arith, omega arith, omega arith, omega arith)
get-IsValid env (some row) h = h

-- Every call of the panel, the scheduler and the command line, with the answers of its
-- surroundings.
pub data Call : Type 0 where
  enable : Bool → Option ℕ → Call
  schedule : ScheduleName → Option ℕ → Call
  hour weekday interval keep : ℤ → Option ℕ → Call
  recipients : List ℤ → Option ℕ → Call
  backup : Surroundings → Trigger → Option ℕ → Bool → Bool → Call
  look : Surroundings → (Time → Local) → Time → Bool → Call

abbrev pub after : BackupDefaults → Call → Panel → Panel
after env (enable on actor) panel = set_enabled env on actor panel
after env (schedule by actor) panel = (set_schedule env by actor panel).1
after env (hour n actor) panel = set_hour env n actor panel
after env (weekday n actor) panel = set_weekday env n actor panel
after env (interval n actor) panel = set_interval_hours env n actor panel
after env (keep n actor) panel = set_keep env n actor panel
after env (recipients ids actor) panel = set_recipients env ids actor panel
after env (backup world trigger actor send has_bot) panel =
    (run env world trigger actor send has_bot panel).1
after env (look world astimezone now locked) panel = (tick env world astimezone now locked panel).1

abbrev pub after_all : BackupDefaults → List Call → Panel → Panel
after_all env [] panel = panel
after_all env (call ∷ calls) panel = after_all env calls (after env call panel)

hour_modulo-bound : (n : ℤ) → hour_modulo n < 24
hour_modulo-bound (pos n) = omega arith
hour_modulo-bound (negsuc n) = omega arith

started-IsValid :
    (world : Surroundings) (trigger : Trigger) (actor : Option ℕ) (row : BotSettings)
    (ids : Result (List ℤ)) (created : Created) (panel : Panel)
    → IsValid row
    → IsValidRow panel.row
    → IsValidRow (started (finish_run world trigger actor row) ids created panel).1.row
started-IsValid world trigger actor row (Result.err e) created panel h k = k
started-IsValid world trigger actor row (Result.ok ids) (raised message) panel h k = h
started-IsValid world trigger actor row (Result.ok ids) (made artifact) panel h k = h

run-IsValid :
    (env : BackupDefaults) (world : Surroundings) (trigger : Trigger) (actor : Option ℕ)
    (send has_bot : Bool) (panel : Panel)
    → IsValidRow panel.row
    → IsValidRow (run env world trigger actor send has_bot panel).1.row
unfolding run
run-IsValid env world trigger actor send has_bot panel h =
    let row = get env panel.row in
    let valid = get-IsValid env panel.row h in
    started-IsValid world trigger actor row _ world.created (record panel { row = some row }) valid
      valid

IsValidRow-if :
    (b : Bool) (x y : Result TickResult × Panel)
    → IsValidRow x.1.row
    → IsValidRow y.1.row
    → IsValidRow (if b then x else y).1.row
IsValidRow-if true x y h k = h
IsValidRow-if false x y h k = k

committed-IsValid :
    (finished : Result (Option BackupArtifact) × Panel) (panel : Panel)
    → IsValidRow panel.row
    → IsValidRow finished.1.row
    → IsValidRow (committed finished panel).1.row
committed-IsValid (Result.err e, flushed) panel h k = h
committed-IsValid (Result.ok artifact, flushed) panel h k = k

tick-IsValid :
    (env : BackupDefaults) (world : Surroundings) (astimezone : Time → Local) (now : Time)
    (locked : Bool) (panel : Panel)
    → IsValidRow panel.row
    → IsValidRow (tick env world astimezone now locked panel).1.row
unfolding tick
tick-IsValid env world astimezone now locked panel h =
    let finished = committed (run env world auto none true true panel) panel in
    let late = if not locked then (Result.ok skipped, panel) else finished in
    IsValidRow-if (not (is_due astimezone (get env panel.row) (aware now) none))
      (Result.ok not_due, panel) late h
      (IsValidRow-if (not locked) (Result.ok skipped, panel) finished h
        (committed-IsValid (run env world auto none true true panel) panel h
          (run-IsValid env world auto none true true panel h)))

schedule_set-IsValid :
    (env : BackupDefaults) (found : Option BackupSchedule) (actor : Option ℕ) (panel : Panel)
    → IsValidRow panel.row
    → IsValidRow (schedule_set env found actor panel).1.row
schedule_set-IsValid env none actor panel h = get-IsValid env panel.row h
schedule_set-IsValid env (some chosen) actor panel h = get-IsValid env panel.row h

after-IsValid :
    (env : BackupDefaults) (call : Call) (panel : Panel)
    → IsValidRow panel.row
    → IsValidRow (after env call panel).row
unfolding set_enabled set_schedule set_hour set_weekday set_interval_hours set_keep set_recipients
after-IsValid env (enable on actor) panel h = get-IsValid env panel.row h
after-IsValid env (schedule by actor) panel h =
    schedule_set-IsValid env (schedule_member by) actor panel h
after-IsValid env (hour n actor) panel h =
    let (a, b, c, d) = get-IsValid env panel.row h in (hour_modulo-bound n, b, c, d)
after-IsValid env (weekday n actor) panel h =
    let (a, b, c, d) = get-IsValid env panel.row h in (a, omega arith, c, d)
after-IsValid env (interval n actor) panel h =
    let (a, b, c, d) = get-IsValid env panel.row h in (a, b, omega arith, d)
after-IsValid env (keep n actor) panel h =
    let (a, b, c, d) = get-IsValid env panel.row h in (a, b, c, omega arith)
after-IsValid env (recipients ids actor) panel h = get-IsValid env panel.row h
after-IsValid env (backup world trigger actor send has_bot) panel h =
    run-IsValid env world trigger actor send has_bot panel h
after-IsValid env (look world astimezone now locked) panel h =
    tick-IsValid env world astimezone now locked panel h

-- Whatever the environment says and whatever the administrators, the scheduler and the command
-- line call, the settings row keeps an hour of the day, a weekday, an interval of at least one hour
-- and at least one archive, if the row of the table had them or did not exist yet.
pub after_all-IsValid :
    (env : BackupDefaults) (calls : List Call) (panel : Panel)
    → IsValidRow panel.row
    → IsValidRow (after_all env calls panel).row
after_all-IsValid env [] panel h = h
after_all-IsValid env (call ∷ calls) panel h =
    after_all-IsValid env calls (after env call panel) (after-IsValid env call panel h)
