-- ===== src/Examples/Backups.antt =====
-- Backups on concrete settings, archives and recipients.
use planmaker.Common.{
  ◌+◌, ◌*◌, ◌-◌, ◌≤◌, ◌≡◌, refl, ◌↔◌, true, none, some, List, [], ◌∷◌, ◌++◌, All, max, take, length,
  arith,
}
use planmaker.Common.Int.{ℤ, pos, negsuc}
use planmaker.Common.Result.{Result}
use planmaker.Common.Text.{Text, codes}
use planmaker.Backup.Literal.{text, sql_literal}
use planmaker.Backup.Literal.Reader.{read_string}
use planmaker.Backup.Literal.RoundTrip.{read_string-sql_literal}
use planmaker.Backup.Dump.{batches}
use planmaker.Backup.Dump.Batches.{batches_complete, concat, IsChunk}
use planmaker.Backup.Row.{
  BotSettings, BackupDefaults, weekly, daily, hourly, get, join_ids, or_none,
}
use planmaker.Backup.Schedule.{Local, due_by, next_run, date_of, hour_of, hour_length}
use planmaker.Backup.Schedule.Next.{next_run-IsNext, IsNext}
use planmaker.Backup.Schedule.Daily.{due_by-daily_second_iff}
use planmaker.Backup.Schedule.Spacing.{AreRuns, AreRuns-IsSpread, last_of}
use planmaker.Backup.Prune.{Archive, newest_first, stale_archives}
use planmaker.Backup.Prune.Newest.{stale_archives-IsOldest, IsOldest}
use planmaker.Backup.Recipients.{recipient_list, or_ids}
use planmaker.Backup.Recipients.RoundTrip.{recipient_list-join_ids, firsts}
use planmaker.Backup.Logs.{manual, auto}
use planmaker.Backup.Service.{Panel, BackupArtifact, raised, made, Surroundings, run}
use planmaker.Backup.Service.Valid.{
  after_all-IsValid, after_all, IsValidRow, Call, hour, weekday, keep, enable,
}
use planmaker.Backup.Service.Runs.{Attempt, IsLogged, run-made, HasRun, recipients_of}

abbrev awkward : Text
awkward = codes "it's a \\ and\na line"

read_string-sql_literal_example :
    read_string (sql_literal (text awkward) ++ codes ", 1)") ≡ some (awkward, codes ", 1)")
read_string-sql_literal_example = read_string-sql_literal awkward (codes ", 1)") refl

abbrev two_rows : List Text
two_rows = codes "(1)" ∷ codes "(2)" ∷ []

batches_complete_example :
    (concat (batches [] 0 two_rows) ≡ two_rows) × All IsChunk (batches [] 0 two_rows)
batches_complete_example = batches_complete two_rows

abbrev weekly_row : BotSettings
weekly_row = record {
  backup_enabled = true;
  backup_schedule = weekly;
  backup_hour = 3;
  backup_weekday = 0;
  backup_every_hours = 12;
  backup_keep = 2;
  backup_recipients = some (codes "7,-9");
  backup_last_run_at = none;
  backup_last_error = none;
}

-- The fifth hour of ordinal 15.
abbrev morning : Local
morning = 1314000000000

next_run-IsNext_example :
    (t : Local) × (next_run weekly_row morning ≡ Result.ok (some t))
    × IsNext weekly weekly_row morning t
next_run-IsNext_example =
    next_run-IsNext weekly_row morning (omega arith, omega arith, omega arith, omega arith) refl

-- Half past three of ordinal 15.
abbrev half_past : Local
half_past = 1308600000000

at_three : hour_of half_past ≡ 3
unfolding hour_of
at_three = refl

due_by-daily_second_iff_example :
    ((t : Local) × (date_of t ≡ date_of half_past)
      × (due_by daily weekly_row t (some half_past) ≡ true))
    ↔ (3 ≤ 3)
due_by-daily_second_iff_example = due_by-daily_second_iff weekly_row half_past at_three

abbrev two_runs : List Local
two_runs = 1312200000000 ∷ 1318800000000 ∷ []

two_runs-AreRuns : AreRuns hourly weekly_row half_past two_runs
unfolding due_by
two_runs-AreRuns = (omega arith, refl, (omega arith, refl, tt))

AreRuns-IsSpread_example : half_past + 2 * hour_length ≤ last_of half_past two_runs
AreRuns-IsSpread_example = AreRuns-IsSpread hourly weekly_row half_past two_runs two_runs-AreRuns

abbrev old_archives : List Archive
old_archives =
    record { path = codes "/b/a"; mtime = 1 }
    ∷ record { path = codes "/b/b"; mtime = 5 }
    ∷ record { path = codes "/b/c"; mtime = 3 }
    ∷ []

stale_archives-IsOldest_example :
    (length (stale_archives (λ p. true) 2 old_archives) ≡ 3 - max 1 2)
    × All
        (IsOldest (take (max 1 2) (newest_first old_archives)))
        (stale_archives (λ p. true) 2 old_archives)
stale_archives-IsOldest_example = stale_archives-IsOldest (λ p. true) 2 old_archives (λ p. refl)

abbrev env : BackupDefaults
env = record {
  backup_auto_enabled = true;
  backup_schedule = codes "daily";
  backup_hour = pos 30;
  backup_weekday = negsuc 0;
  backup_every_hours = pos 0;
  backup_keep = pos 7;
  backup_chat_ids = [];
  admin_ids = pos 7 ∷ [];
  lower = λ t. t;
}

abbrev ids : List ℤ
ids = pos 7 ∷ negsuc 8 ∷ pos 7 ∷ []

abbrev sent_row : BotSettings
sent_row = record weekly_row { backup_recipients = or_none (join_ids ids) }

recipient_list-join_ids_example :
    recipient_list env sent_row ≡ Result.ok (or_ids (firsts ids) (or_ids [] (pos 7 ∷ [])))
recipient_list-join_ids_example = recipient_list-join_ids env sent_row ids refl

abbrev panel : Panel
panel = record {
  row = some sent_row;
  logs = [];
  next_log = 1;
  audit = [];
  dir = record { archives = old_archives; temporary = [] };
}

abbrev fresh_panel : Panel
fresh_panel = record panel { row = none }

abbrev calls : List Call
calls =
    hour (negsuc 0) (some 1)
    ∷ weekday (pos 9) (some 1)
    ∷ keep (negsuc 4) none
    ∷ enable true none
    ∷ []

after_all-IsValid_example : IsValidRow (after_all env calls fresh_panel).row
after_all-IsValid_example = after_all-IsValid env calls fresh_panel tt

abbrev failing : Surroundings
failing = record {
  created = raised (codes "disk full");
  elapsed_ms = 12;
  sends = λ i. true;
  deletable = λ p. true;
  clock = 9;
}

sent_ids : recipients_of env true true (some sent_row) ≡ Result.ok (pos 7 ∷ negsuc 8 ∷ [])
unfolding get
sent_ids = recipient_list-join_ids env sent_row ids refl

-- The scheduler fails twice, then an administrator does.
abbrev scheduled : Attempt
scheduled = record {
  world = failing;
  trigger = auto;
  actor = none;
  send = true;
  has_bot = true;
  message = codes "disk full";
  fails = refl;
}

abbrev attempts : List Attempt
attempts = scheduled ∷ scheduled ∷ record scheduled { trigger = manual; actor = some 1 } ∷ []

abbrev artifact : BackupArtifact
artifact = record {
  path = codes "/b/d";
  filename = codes "d";
  size_bytes = 100;
  engine = codes "python";
  tables = 12;
  rows = 40;
  sha256 = codes "00";
  duration_ms = 5;
}

abbrev working : Surroundings
working = record failing { created = made artifact }

run-made_example :
    HasRun env sent_row panel
      (IsLogged auto none (pos 7 ∷ negsuc 8 ∷ []) (λ i. true) artifact)
      9
      artifact
      (run env working auto none true true panel)
unfolding get join_ids
run-made_example =
    run-made env working auto none true true panel (pos 7 ∷ negsuc 8 ∷ []) artifact refl sent_ids
      ((omega arith, refl), ((omega arith, refl), ((omega arith, refl), tt)))
