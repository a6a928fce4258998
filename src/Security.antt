-- ===== src/Security.antt =====
-- app/security.py: who counts as an administrator.
use planmaker.Common.{ℕ, Bool, true, false, ◌||◌, Option, none, some, ◌==◌, any, if◌then◌else◌}
use planmaker.Common.Settings.{Settings}
use planmaker.Database.{User, Role, admin, advisor, student}

abbrev pub role_eq : Role → Role → Bool
role_eq admin admin = true
role_eq advisor advisor = true
role_eq student student = true
role_eq _ _ = false

unfoldable pub is_admin_env : Settings → Option ℕ → Bool
is_admin_env cfg none = false
is_admin_env cfg (some t) = any (λ a. t == a) cfg.admin_ids

-- `is_admin(user, telegram_id)` for a user that is there.
unfoldable pub is_admin : Settings → User → Option ℕ → Bool
unfolding is_admin_env
is_admin cfg user telegram_id =
    if is_admin_env cfg telegram_id
    then true
    else if is_admin_env cfg user.telegram_id
    then true
    else role_eq user.role admin

unfoldable pub is_advisor : Option User → Bool
is_advisor none = false
is_advisor (some u) = role_eq u.role advisor || role_eq u.role admin
