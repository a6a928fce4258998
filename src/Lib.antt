-- ===== src/Lib.antt =====
-- Rotbe Land weekly planner: a Telegram bot with which advisors write weekly study plans for their
-- students, render them on an official sheet and send them.
--
-- The program's parts, and the files that model them:
--
--   Common     the shared names: tests on numbers, list operations, texts as lists of code points
--              (strip, split, join, str of a number), results with the exceptions that the program
--              raises, dictionaries, integers, the configuration.
--   Calendar   app/domain/calendar.py, JalaliDate: weekdays, weeks and ranges. A date is its
--              proleptic ordinal.
--   Persian    app/domain/persian.py and the digit tables of app/domain/calendar.py.
--   Domain     app/domain/models.py: Activity, Day (PlanDay) and Plan (WeeklyPlan), the model that
--              renderers draw; Domain.Day.Grid is the map from slots that a day stands for.
--   Database   app/db/models.py: the rows, and the tables as one state `Db`, with the files on the
--              disk. Database.Action is the monad of every operation, `Db → Result A × Db`: the
--              tables come back beside an exception too. Database.Keeps has the rules for what an
--              operation leaves alone.
--   Security, Users, Requests, Plans
--              app/security.py and the repositories of app/repositories/repositories.py, with the
--              operations of app/services/plan_manager.py on access requests in Requests; Plans.Listing
--              has the history of plans, by pages.
--   Invites    app/services/invites.py and PlanManager.claim_invite.
--   Manager    app/services/plan_manager.py: who may do what, and the operations on plans;
--              Manager.Copies has those that go through the domain model (to_domain).
--   Students   PlanManager's operations on students.
--   Storage    remove_plan_files of app/services/plan_manager.py, and the two helpers for files of
--              app/services/deletion.py.
--              Storage.Orphans has the storage report and the cleanup of app/services/admin_service.py.
--   Statistics the counts of app/services/admin_service.py.
--   Deletion   app/services/deletion.py.
--   Backup     app/services/backup.py: Schedule (is_due, next_run), Service (the settings, a run, a
--              tick of the scheduler), Prune, Literal and Dump (the INSERT statements); and the
--              settings row and the history of app/db/models.py and its repositories in Row,
--              Recipients and Logs.
--   Restore    app/services/restore.py: Archive (members and checksums), Plan (inspect) and the flow
--              of a restore against the interface `Live` of a database.
--   Generation app/services/plan_service.py, with a renderer as an interface.
--   Jalali     app/domain/calendar.py: dates as Jalali texts, and reading them.
--   Config     app/config.py: the checks at the start, identifiers and the masked token.
--   Bot        app/bot/middlewares.py: Session is the chain around every handler (error shield,
--              database session, sender), Throttle the rate limit; Delivery is app/bot/delivery.py.
--   Render     app/rendering/assignments.py, app/rendering/fit.py, the registry of sheets, and the
--              queue of renders, app/services/render_queue.py, as a step relation.
--   Examples   concrete settings and tables, on which the theorems are applied.
--
-- The parts interact as in the code: a handler runs inside the chain of Bot.Session, where it may
-- commit before it returns, and calls Manager, Invites, Requests or Deletion; these call the
-- repositories, which change the tables; and Manager.Copies turns rows into the domain model and
-- back. Delivery asks Generation for files that are missing, and stores the result by Plans.
-- Backup and Restore stand beside the tables: they keep their own state, the settings row, the
-- history and the directory, or a database behind `Live`.
--
-- Bounds and fuel: `decimal` counts down from the number plus one, and a number has no more digits
-- than that; `chunks_from` is given one chunk for each item; `next_day` has two rounds, since a
-- candidate of today is at most one day behind, and `next_weekday` the eight of the code. Every
-- other function is structural. Numbers are natural numbers, or integers where the program may have
-- negative ones; they do not overflow in Python. Times are microseconds in the tables and in the
-- schedule, and milliseconds in the throttle.
--
-- Parameters: the configuration (ADMIN_IDS, MAX_PLAN_RANGE_DAYS, the seeds of the backup settings),
-- what a path resolves to and whether it lies inside the storage root, the current time and its
-- zone, the random token, the answer of the search for students by name, the widths and heights of a
-- font, whether a driver's message means a missing schema, renderers, hashing, JSON, tar files, the
-- conversion of jdatetime, and the answers of Telegram, of the file system and of database tools.
--
-- Not modelled: the renderers (Pillow, Chromium), layouts, taking a dump and packing an archive,
-- psql, pg_restore and loading a script in the process, migrations, the searches of the
-- administrator, the handlers with their texts and keyboards, reading the environment and start-up.
-- Most lists for display, audit details and failing flushes of the database are left out. Activities
-- and days are values: an Activity object that two lists share is not modelled.
-- The unique constraints of the tables are not modelled; a theorem that needs one says so.
pub mod Common
pub mod Backup
pub mod Calendar
pub mod Config
pub mod Domain
pub mod Database
pub mod Security
pub mod Bot
pub mod Users
pub mod Requests
pub mod Restore
pub mod Plans
pub mod Jalali
pub mod Manager
pub mod Generation
pub mod Invites
pub mod Storage
pub mod Statistics
pub mod Students
pub mod Persian
pub mod Render
pub mod Examples
pub mod Deletion
