-- ===== src/Requests/Grants.antt =====
-- Accounts that are granted on a request.
use planmaker.Common.{ℕ, ◌≡◌, true, false, none, some}
use planmaker.Common.Settings.{Settings}
use planmaker.Database.{Db, User, Role, admin, AccessRequest}
use planmaker.Security.{is_admin, role_eq}
use planmaker.Users
use planmaker.Users.{by_telegram_id, is_link}
use planmaker.Requests.{by_id_request, is_approved}

-- What an approval that succeeded has found.
pub record Approvable (cfg : Settings) (by : User) (i : ℕ) (role : Role) (db : Db)
    (r : AccessRequest) : Type 0 where
  pub by_admin : is_admin cfg by by.telegram_id ≡ true
  pub grantable : role_eq role admin ≡ false
  pub found : by_id_request i db ≡ some r
  pub not_yet : is_approved r.status ≡ false
  pub newcomer : by_telegram_id r.telegram_id db ≡ none
