-- ===== src/Examples/Accounts.antt =====
-- Who gets in: invites, requests, strangers and rollback on the concrete tables.
use planmaker.Common.{
  ℕ, ◌+◌, ◌-◌, ◌*◌, ◌≤◌, ◌≡◌, refl, ◌⊎◌, false, none, some, List, [], ◌∷◌, arith,
}
use planmaker.Common.Text.{codes}
use planmaker.Common.Result.{Exception, ok, err, access_denied, other_error}
use planmaker.Database.{Db, User, advisor}
use planmaker.Database.Action.{raise, audit_log, ◌>>=◌, ◌>>◌}
use planmaker.Security.{is_admin}
use planmaker.Users
use planmaker.Users.{by_id, is_assigned, by_telegram_id}
use planmaker.Invites.{InviteResult, expired, blocks_invite, claim_invite, claim_token, outcome}
use planmaker.Invites.Roles.{roles, claim_invite-roles}
use planmaker.Requests.{approve_request}
use planmaker.Bot.Session.{
  TgUser, message, callback, Reply, visitor, VisitorMessage, answered, shield, Session, Handler,
  in_session, user_middleware, serve,
}
use planmaker.Bot.Session.Strangers.{strangers_stay_outside}
use planmaker.Bot.Session.Rollback.{opened_session, serve_all_or_nothing}
use planmaker.Bot.Throttle.{default_limits, fresh, passed, capacity, generate}
use planmaker.Bot.Throttle
use planmaker.Bot.Throttle.Rate.{end_time, passed_bound}
use planmaker.Students
use planmaker.Students.{get_student, new_invite, link_telegram_id, edit_student, detach_student}
use planmaker.Students.Owners.{owns, students_need_owner}
use planmaker.Examples.{cfg, boss, coach, pupil, token, tables, value_or}

claim_invite-roles_example :
    roles (claim_invite 50 token 40 none none false tables).1 ≡ roles tables
claim_invite-roles_example = claim_invite-roles 50 token 40 none none false tables

-- The link has expired at the time 200.
abbrev late : InviteResult
late = record { outcome = expired; student = some pupil }

late-ok : (claim_invite 200 token 40 none none false tables).0 ≡ ok late
unfolding claim_invite ◌>>=◌ audit_log blocks_invite claim_token Users.by_invite_token outcome
late-ok = refl

abbrev newcomer : User
newcomer = value_or coach (approve_request cfg boss 1 advisor none tables).0

abbrev someone : TgUser
someone = record { id = 99; full_name = codes "X"; username = none }

-- A handler that writes to the audit log, without a commit, and raises.
abbrev failing : Handler ℕ
failing u is_admin = in_session (audit_log "plan.edited" none none none >> raise other_error)

abbrev start : Session
start = opened_session tables

strangers_stay_outside_example :
    let (x, after) = user_middleware cfg 50 someone (message (codes "hi")) failing start in
    (v : VisitorMessage) × (x ≡ ok (visitor v))
    × (after.current.users ≡ tables.users)
    × (after.current.plans ≡ tables.plans)
unfolding by_telegram_id
strangers_stay_outside_example =
    strangers_stay_outside cfg 50 someone (message (codes "hi")) failing start refl refl refl

abbrev known : TgUser
known = record { id = 20; full_name = codes "Sara"; username = some (codes "s") }

-- The handler commits nothing, so that the tables are those from before.
abbrev IsBefore : Db → Type 0
IsBefore db = db ≡ tables

serve_all_or_nothing_example :
    let (r, s) = user_middleware cfg 50 known (callback (codes "p:preview")) failing start in
    let out = serve cfg (λ e. false) false 50 known (callback (codes "p:preview")) failing tables in
    ((a : Reply ℕ) × (r ≡ ok a) × (out.0 ≡ answered (some a)) × (out.1 ≡ s.current))
    ⊎ ((e : Exception) × (old : Db) × (r ≡ err e)
        × (out.0 ≡ shield (λ e. false) e)
        × IsBefore old
        × (out.1 ≡ record old { disk = s.current.disk }))
serve_all_or_nothing_example =
    serve_all_or_nothing IsBefore cfg (λ e. false) false 50 known (callback (codes "p:preview"))
      failing tables refl refl (λ u b s h. h)

abbrev presses : List Throttle.Event
presses =
    record { uid = 20; now = 5000; payload = some generate }
    ∷ record { uid = 20; now = 5100; payload = some generate }
    ∷ record { uid = 20; now = 5200; payload = none }
    ∷ []

passed_bound_example :
    passed default_limits 20 fresh presses * 250
    ≤ capacity default_limits + (end_time 5000 presses - 5000)
passed_bound_example =
    passed_bound default_limits 20 5000 fresh presses
      (omega arith, (omega arith, (omega arith, tt)))

-- The coach of the tables asks for the administrator's account.
not_own : owns coach 1 tables ≡ false
unfolding by_id is_assigned
not_own = refl

students_need_owner_example :
    (get_student coach 1 tables ≡ (err access_denied, tables))
    × (new_invite 50 token coach 1 tables ≡ (err access_denied, tables))
    × (Students.revoke_invite coach 1 tables ≡ (err access_denied, tables))
    × (link_telegram_id coach 1 44 tables ≡ (err access_denied, tables))
    × (edit_student (λ a q n db. []) coach 1 (codes "Ali") none tables
        ≡ (err access_denied, tables))
    × (detach_student coach 1 tables ≡ (err access_denied, tables))
students_need_owner_example =
    students_need_owner (λ a q n db. []) 50 token (codes "Ali") none coach 1 44 tables not_own
