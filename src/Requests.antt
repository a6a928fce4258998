-- ===== src/Requests.antt =====
-- Access requests: AccessRequestRepository (app/repositories/repositories.py), and `approve_request`,
-- `reject_request` and `create_advisor_by_telegram_id` of app/services/plan_manager.py.
pub mod Grants
use planmaker.Common.{
  ℕ, ◌+◌, Bool, true, false, not, ◌&&◌, ◌||◌, Option, none, some, List, [], ◌∷◌, ◌++◌, length, ltb,
  ◌==◌, if◌then◌else◌, find, is_some,
}
use planmaker.Common.Text.{Text, is_empty, split, join, codes, decimal}
use planmaker.Common.Result.{access_denied, student_error}
use planmaker.Common.Settings.{Settings}
use planmaker.Database.{
  Db, Time, User, Role, admin, advisor, student, RequestStatus, pending, approved, rejected,
  AccessRequest,
}
use planmaker.Database.Action.{
  Action, pure, gets, or_raise, raise_if, modify, if_none, audit_log, ◌>>=◌, ◌>>◌,
}
use planmaker.Security.{is_admin, role_eq}
use planmaker.Users
use planmaker.Users.{by_telegram_id, link_student}

unfoldable pub by_telegram_id_request : ℕ → Db → Option AccessRequest
by_telegram_id_request t db = find (λ r. r.telegram_id == t) db.requests

unfoldable pub by_id_request : ℕ → Db → Option AccessRequest
by_id_request i db = find (λ r. r.id == i) db.requests

abbrev pub update_request :
    ℕ → (AccessRequest → AccessRequest) → List AccessRequest → List AccessRequest
update_request i f [] = []
update_request i f (r ∷ rs) = if r.id == i then f r ∷ rs else r ∷ update_request i f rs

unfoldable pub set_request : ℕ → (AccessRequest → AccessRequest) → Action (Unit {0})
set_request i f = modify (λ db. record db { requests = update_request i f db.requests })

abbrev pub visited : Time → Text → Option Text → AccessRequest → AccessRequest
visited now full_name username r = record r {
  visits = r.visits + 1;
  last_seen_at = now;
  full_name = if is_empty full_name then r.full_name else full_name;
  username = username;
}

abbrev pub first_visit : ℕ → Time → ℕ → Text → Option Text → AccessRequest
first_visit i now telegram_id full_name username = record {
  id = i;
  telegram_id = telegram_id;
  full_name = if is_empty full_name then decimal telegram_id else full_name;
  username = username;
  status = pending;
  visits = 1;
  last_seen_at = now;
  handled_by_id = none;
  granted_role = none;
}

unfoldable pub add_request : Time → ℕ → Text → Option Text → Action AccessRequest
add_request now telegram_id full_name username = do
  i ← gets (λ db. db.next_request)
  modify λ db. record db {
    requests = db.requests ++ first_visit i now telegram_id full_name username ∷ [];
    next_request = db.next_request + 1;
  }
  pure (first_visit i now telegram_id full_name username)

-- `record`: a returning visitor is counted, whatever became of the request.
unfoldable pub record_visit : Time → ℕ → Text → Option Text → Action AccessRequest
record_visit now telegram_id full_name username = do
  existing ← gets (by_telegram_id_request telegram_id)
  if_none existing (add_request now telegram_id full_name username) λ r. do
    set_request r.id (visited now full_name username)
    pure (visited now full_name username r)

abbrev pub is_approved : RequestStatus → Bool
is_approved approved = true
is_approved _ = false

abbrev pub granted : ℕ → Role → AccessRequest → AccessRequest
granted admin_id role r = record r {
  status = approved;
  handled_by_id = some admin_id;
  granted_role = some role;
}

-- `advisor_id or admin.id`
abbrev pub id_or : Option ℕ → ℕ → ℕ
id_or none d = d
id_or (some i) d = if i == 0 then d else i

unfoldable pub approve_request : Settings → User → ℕ → Role → Option ℕ → Action User
approve_request cfg by request_id role advisor_id = do
  raise_if (not (is_admin cfg by by.telegram_id)) access_denied
  raise_if (role_eq role admin) student_error
  found ← gets (by_id_request request_id)
  request ← or_raise found student_error
  raise_if (is_approved request.status) student_error
  existing ← gets (by_telegram_id request.telegram_id)
  raise_if (is_some existing) student_error
  user ← Users.create request.full_name role (some request.telegram_id) request.username none none
  if role_eq role student then link_student (id_or advisor_id by.id) user.id else pure tt
  set_request request.id (granted by.id role)
  audit_log "access.approved" (some by.id) none
      (if role_eq role student then some user.id else none)
  pure user

unfoldable pub reject_request : Settings → User → ℕ → Action AccessRequest
reject_request cfg by request_id = do
  raise_if (not (is_admin cfg by by.telegram_id)) access_denied
  found ← gets (by_id_request request_id)
  request ← or_raise found student_error
  set_request request.id (λ r. record r { status = rejected; handled_by_id = some by.id })
  audit_log "access.rejected" (some by.id) none none
  pure request

-- `" ".join((full_name or "").split())`
unfoldable pub clean_name : Text → Text
clean_name full_name = join (codes " ") (split full_name)

unfoldable pub create_advisor_by_telegram_id : Settings → User → Text → ℕ → Action User
create_advisor_by_telegram_id cfg by full_name telegram_id = do
  raise_if (not (is_admin cfg by by.telegram_id)) access_denied
  raise_if (ltb (length (clean_name full_name)) 2) student_error
  taken ← gets (by_telegram_id telegram_id)
  raise_if (is_some taken) student_error
  user ← Users.create (clean_name full_name) advisor (some telegram_id) none none none
  request ← gets (by_telegram_id_request telegram_id)
  if_none request (pure tt) (λ r. set_request r.id (granted by.id advisor))
  audit_log "advisor.created" (some by.id) none none
  pure user
