-- ===== src/Backup/Service/Runs.antt =====
-- app/services/backup.py, `BackupService.run` and `BackupScheduler.tick`: what one attempt leaves.
use planmaker.Common.{
  ℕ, ◌≤◌, ◌≡◌, refl, ap, ◌∙◌, Bool, true, false, not, ◌&&◌, Option, none, some, List, [], ◌∷◌, ◌++◌,
  if◌then◌else◌, arith, take, select, length, any, is_some,
}
use planmaker.Common.Int.{ℤ}
use planmaker.Common.Result.{Result}
use planmaker.Common.Text.{Text, is_empty}
use planmaker.Database.{Time}
use planmaker.Backup.Row.{
  BackupSchedule, hourly, hours, daily, weekly, BotSettings, BackupDefaults, get, or_none, join_ids,
}
use planmaker.Backup.Logs
use planmaker.Backup.Logs.{Trigger, Entry, BackupLog, failed, log_row, cut_error}
use planmaker.Backup.Recipients.{recipient_list}
use planmaker.Backup.Prune.{Archive}
use planmaker.Backup.Prune.Survives.{IsFresh, prune_backups-fresh}
use planmaker.Backup.Schedule.{Local, Moment, aware, is_due, due_by, every_hours}
use planmaker.Backup.Service.{
  Panel, Surroundings, Created, raised, made, BackupArtifact, run, started, finish_run, deliver,
  lost_text, with_archive,
}

-- The recipients that `run` finds.
abbrev pub recipients_of : BackupDefaults → Bool → Bool → Option BotSettings → Result (List ℤ)
recipients_of env send has_bot row =
    if send && has_bot then recipient_list env (get env row) else Result.ok []

-- A run whose recipients can be read.
run-eq :
    (env : BackupDefaults) (world : Surroundings) (trigger : Trigger) (actor : Option ℕ)
    (send has_bot : Bool) (panel : Panel) (ids : List ℤ) (created : Created)
    → world.created ≡ created
    → recipients_of env send has_bot panel.row ≡ Result.ok ids
    → run env world trigger actor send has_bot panel
      ≡ started
          (finish_run world trigger actor (get env panel.row))
          (Result.ok ids)
          created
          (record panel { row = some (get env panel.row) })
unfolding run
run-eq env world trigger actor send has_bot panel ids created outcome found =
    ap
      (λ r.
        started (finish_run world trigger actor (get env panel.row)) r world.created
          (record panel { row = some (get env panel.row) }))
      found
    ∙ ap
        (λ c.
          started (finish_run world trigger actor (get env panel.row)) (Result.ok ids) c
            (record panel { row = some (get env panel.row) }))
        outcome

-- The log entry of an attempt that failed with a message.
abbrev pub IsFailure : Text → Entry → Type 0
IsFailure message entry =
    (entry.status ≡ failed)
    × (entry.delivered ≡ 0)
    × (entry.filename ≡ none)
    × (entry.path ≡ none)
    × (entry.error ≡ or_none (take 2000 message))

-- What a failed attempt leaves, from the settings row and the tables before it.
abbrev HasFailed :
    BackupDefaults
    → BotSettings
    → Panel
    → Time
    → Text
    → Result (Option BackupArtifact) × Panel
    → Type 0
HasFailed env row before now message (result, after) =
    (result ≡ Result.ok none)
    × (after.row ≡ some (record row { backup_last_error = some (take 1000 message) }))
    × ((logged : BackupLog) × (after.logs ≡ before.logs ++ logged ∷ [])
        × IsFailure message logged.entry)
    × (after.dir ≡ before.dir)

-- One call of `run` whose `create_backup` raises.
pub record Attempt : Type 0 where
  pub world : Surroundings
  pub trigger : Trigger
  pub actor : Option ℕ
  pub send : Bool
  pub has_bot : Bool
  pub message : Text
  pub fails : world.created ≡ raised message

abbrev pub attempted : BackupDefaults → List Attempt → Panel → Panel
attempted env [] panel = panel
attempted env (a ∷ as') panel =
    attempted env as' (run env a.world a.trigger a.actor a.send a.has_bot panel).1

-- The entries of the attempts, in their order.
abbrev pub AreFailures : List Attempt → List BackupLog → Type 0
AreFailures [] [] = Unit
AreFailures (a ∷ as') (l ∷ ls) = IsFailure a.message l.entry × AreFailures as' ls
AreFailures [] (l ∷ ls) = ⊥
AreFailures (a ∷ as') [] = ⊥

-- The archives are those from before, one failure is logged for each attempt, and the scheduler is
-- due whenever it was.
abbrev pub HasNoBackup : BackupDefaults → Panel → List Attempt → Panel → Type 0
HasNoBackup env before attempts after =
    (after.dir ≡ before.dir)
    × ((entries : List BackupLog) × (after.logs ≡ before.logs ++ entries)
        × AreFailures attempts entries)
    × ((astimezone : Time → Local) (moment : Moment) (last : Option Time)
        → is_due astimezone (get env after.row) moment last
          ≡ is_due astimezone (get env before.row) moment last)

deliver-one :
    (sent : Bool) (i : ℤ) (delivered lost : List ℤ)
    → ◌≡◌ {A = List ℤ × List ℤ}
        (if sent then (i ∷ delivered, lost) else (delivered, i ∷ lost))
        (if sent then i ∷ delivered else delivered, if not sent then i ∷ lost else lost)
deliver-one true i delivered lost = refl
deliver-one false i delivered lost = refl

deliver-eq :
    (sends : ℤ → Bool) (ids : List ℤ)
    → deliver sends ids ≡ (select sends ids, select (λ i. not (sends i)) ids)
unfolding deliver
deliver-eq sends [] = refl
deliver-eq sends (i ∷ ids) =
    rw (deliver-eq sends ids) (deliver-one (sends i) i (select sends ids) _)

every_hours-positive : (row : BotSettings) → 1 ≤ every_hours row
unfolding every_hours
every_hours-positive row = omega arith

due_by-same_time :
    (schedule : BackupSchedule) (row : BotSettings) (t : Local)
    → due_by schedule row t (some t) ≡ false
unfolding due_by
due_by-same_time hourly row t = ground arith
due_by-same_time hours row t = ground (arith, every_hours-positive row)
due_by-same_time daily row t = ground arith
due_by-same_time weekly row t = ground arith

-- The row after a run that made an archive.
abbrev pub run_at : Time → BotSettings → BotSettings
run_at now row = record row { backup_last_run_at = some now; backup_last_error = none }

if_same : (b : Bool) → (if b then false else false) ≡ false
if_same b = ground arith

is_due-run_at :
    (row : BotSettings) (now : Time) (astimezone : Time → Local)
    → is_due astimezone (run_at now row) (aware now) none ≡ false
unfolding is_due
is_due-run_at row now astimezone = rw due_by-same_time (if_same row.backup_enabled)

-- The archive file of an artifact that was written at a time.
abbrev pub file_of : Time → BackupArtifact → Archive
file_of now artifact = record { path = artifact.path; mtime = now }

-- The log entry of an archive that was sent to the recipients: how many Telegram accepted it for, and
-- an error that is there exactly when it refused one.
abbrev pub IsLogged : Trigger → Option ℕ → List ℤ → (ℤ → Bool) → BackupArtifact → Entry → Type 0
IsLogged trigger actor ids sends artifact entry =
    (entry.status ≡ Logs.ok)
    × (entry.trigger ≡ trigger)
    × (entry.created_by_id ≡ actor)
    × (entry.path ≡ some artifact.path)
    × (entry.sha256 ≡ some artifact.sha256)
    × (entry.size_bytes ≡ artifact.size_bytes)
    × (entry.rows ≡ artifact.rows)
    × (entry.recipients ≡ or_none (join_ids ids))
    × (entry.delivered ≡ length (select sends ids))
    × (is_some entry.error ≡ any (λ i. not (sends i)) ids)

delivered_count :
    (sends : ℤ → Bool) (ids : List ℤ) → length (deliver sends ids).0 ≡ length (select sends ids)
delivered_count sends ids = ap (λ (r : List ℤ × List ℤ). length r.0) (deliver-eq sends ids)

error-lost : (ids : List ℤ) → is_some (cut_error (lost_text ids)) ≡ not (is_empty ids)
unfolding cut_error
error-lost [] = refl
error-lost (i ∷ ids) = refl

any-lost :
    (sends : ℤ → Bool) (ids : List ℤ)
    → not (is_empty (select (λ i. not (sends i)) ids)) ≡ any (λ i. not (sends i)) ids
any-lost sends [] = refl
any-lost sends (i ∷ ids) = ground (arith, any-lost sends ids)

error-refused :
    (sends : ℤ → Bool) (ids : List ℤ)
    → is_some (cut_error (lost_text (deliver sends ids).1)) ≡ any (λ i. not (sends i)) ids
error-refused sends ids =
    error-lost (deliver sends ids).1
    ∙ ap (λ (r : List ℤ × List ℤ). not (is_empty r.1)) (deliver-eq sends ids)
    ∙ any-lost sends ids

-- What an attempt that made an archive leaves.
abbrev pub HasRun :
    BackupDefaults
    → BotSettings
    → Panel
    → (Entry → Type 0)
    → Time
    → BackupArtifact
    → Result (Option BackupArtifact) × Panel
    → Type 0
HasRun env row before Logged now artifact (result, after) =
    (result ≡ Result.ok (some artifact))
    × (after.row ≡ some (run_at now row))
    × ((logged : BackupLog) × (after.logs ≡ before.logs ++ logged ∷ [])
        × (logged.at ≡ now)
        × Logged logged.entry)
    × ((kept : List Archive) × (after.dir.archives ≡ kept ++ file_of now artifact ∷ []))
    × ((astimezone : Time → Local) → is_due astimezone (get env after.row) (aware now) none ≡ false)

-- A backup that succeeds is logged with its file, the number of recipients that Telegram accepted it
-- for, and an error exactly when there was another. The time of the run is stored and the last error
-- is cleared, so that the scheduler is not due again at that moment, and the retention leaves the new
-- archive on disk, if its time is later than that of the archives before.
pub run-made :
    (env : BackupDefaults) (world : Surroundings) (trigger : Trigger) (actor : Option ℕ)
    (send has_bot : Bool) (panel : Panel) (ids : List ℤ) (artifact : BackupArtifact)
    → world.created ≡ made artifact
    → recipients_of env send has_bot panel.row ≡ Result.ok ids
    → IsFresh panel.dir.archives (file_of world.clock artifact)
    → HasRun env
        (get env panel.row)
        panel
        (IsLogged trigger actor ids world.sends artifact)
        world.clock
        artifact
        (run env world trigger actor send has_bot panel)
unfolding get log_row
run-made env world trigger actor send has_bot panel ids artifact success found fresh =
    rw (run-eq env world trigger actor send has_bot panel ids (made artifact) success found) (
      refl,
      refl,
      (
        _,
        refl,
        refl,
        (
          refl,
          refl,
          refl,
          refl,
          refl,
          refl,
          refl,
          refl,
          delivered_count world.sends ids,
          error-refused world.sends ids,
        ),
      ),
      prune_backups-fresh world.deletable (get env panel.row).backup_keep
          (with_archive world.clock artifact panel.dir) panel.dir.archives
          (file_of world.clock artifact) refl fresh,
      is_due-run_at (get env panel.row) world.clock,
    )
