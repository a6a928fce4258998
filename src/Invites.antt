-- ===== src/Invites.antt =====
-- app/services/invites.py, and `claim_invite` of app/services/plan_manager.py: redeeming an
-- invite link. Roles are checked before anything but the audit log is written.
pub mod Roles
pub mod Outcomes
use planmaker.Common.{
  ℕ, Bool, true, false, not, ◌&&◌, ◌||◌, Option, none, some, ltb, ◌==◌, if◌then◌else◌, map,
}
use planmaker.Common.Text.{Text}
use planmaker.Database.{Db, Time, User, Role, admin, advisor, student}
use planmaker.Database.Action.{Action, pure, gets, audit_log, if_none, ◌>>=◌, ◌>>◌}
use planmaker.Users
use planmaker.Users.{by_invite_token, revoke_invite, id_eq}
use Prim.Native.String.{String}

pub data InviteOutcome : Type 0 where
  linked already_self role_conflict cross_student already_linked expired invalid : InviteOutcome

abbrev pub outcome_ok : InviteOutcome → Bool
outcome_ok linked = true
outcome_ok already_self = true
outcome_ok _ = false

unfoldable pub audit_action : InviteOutcome → String
audit_action linked = "invite.accepted"
audit_action already_self = "invite.already_used"
audit_action role_conflict = "invite.role_conflict"
audit_action cross_student = "invite.rejected"
audit_action already_linked = "invite.already_linked"
audit_action expired = "invite.expired"
audit_action invalid = "invite.rejected"

pub record InviteResult : Type 0 where
  pub outcome : InviteOutcome
  pub student : Option User

-- `actor.role in PROTECTED_ROLES`
abbrev pub is_protected : Role → Bool
is_protected admin = true
is_protected advisor = true
is_protected student = false

unfoldable pub blocks_invite : Option User → Bool → Bool
blocks_invite actor true = true
blocks_invite none false = false
blocks_invite (some u) false = is_protected u.role

abbrev pub id_of : Option User → Option ℕ
id_of none = none
id_of (some u) = some u.id

unfoldable pub log_invite : InviteOutcome → Option User → Option User → Action (Unit {0})
unfolding audit_log
log_invite o actor s = audit_log (audit_action o) (id_of actor) none (id_of s)

-- Log the outcome and return it.
unfoldable pub outcome :
    InviteOutcome → Option User → Option User → Option User → Action InviteResult
unfolding log_invite
outcome o actor s result = do log_invite o actor s; pure (record { outcome = o; student = result })

abbrev pub has_expired : Time → Option Time → Bool
has_expired now none = false
has_expired now (some expiry) = ltb expiry now

-- "an existing (student) account may not absorb another student"
abbrev pub is_someone_else : Option User → User → Bool
is_someone_else none s = false
is_someone_else (some a) s = not (a.id == s.id)

-- Steps 3 and 4, for a token that belongs to `s` and has not expired.
unfoldable pub claim_for : Option User → ℕ → Option Text → User → Action InviteResult
claim_for actor telegram_id username s =
    if_none s.telegram_id
      (if is_someone_else actor s
        then outcome cross_student actor (some s) (some s)
        else (Users.claim_invite s telegram_id username >> outcome linked actor (some s) (some s)))
      λ t.
        if t == telegram_id
        then (revoke_invite s >> outcome already_self actor (some s) (some s))
        else outcome already_linked actor (some s) (some s)

-- Step 2: the token must belong to somebody and not have expired.
unfoldable pub claim_token : Time → Text → Option User → ℕ → Option Text → Action InviteResult
claim_token now token actor telegram_id username = do
  found ← gets (by_invite_token token)
  if_none found (outcome invalid actor none none) λ s.
      if has_expired now s.invite_expires_at
      then outcome expired actor (some s) (some s)
      else claim_for actor telegram_id username s

unfoldable pub claim_invite :
    Time → Text → ℕ → Option Text → Option User → Bool → Action InviteResult
claim_invite now token telegram_id username actor is_admin_env = do
  audit_log "invite.opened" (id_of actor) none none
  (if blocks_invite actor is_admin_env
      then outcome role_conflict actor none none
      else claim_token now token actor telegram_id username)
