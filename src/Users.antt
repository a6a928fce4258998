-- ===== src/Users.antt =====
-- app/repositories/repositories.py, UserRepository. A query that can match one row at most
-- (`scalar_one_or_none` on a unique column) is the first match.
use planmaker.Common.{
  ℕ, ◌+◌, ◌*◌, Bool, true, false, not, ◌&&◌, ◌||◌, Option, none, some, List, [], ◌∷◌, ◌++◌, length,
  ltb, ◌==◌, if◌then◌else◌, select, any, find, is_some,
}
use planmaker.Common.Text.{Text, is_empty, text_eq, strip}
use planmaker.Common.Result.{ok, value_error, permission_error}
use planmaker.Database.{Db, Time, User, Role, student, Link}
use planmaker.Database.Action.{Action, pure, gets, raise_if, modify, ◌>>=◌, ◌>>◌}
use planmaker.Security.{role_eq}

abbrev pub id_eq : Option ℕ → ℕ → Bool
id_eq none n = false
id_eq (some m) n = m == n

abbrev pub token_eq : Option Text → Text → Bool
token_eq none t = false
token_eq (some s) t = text_eq s t

unfoldable pub by_telegram_id : ℕ → Db → Option User
by_telegram_id t db = find (λ u. id_eq u.telegram_id t) db.users

unfoldable pub by_id : ℕ → Db → Option User
by_id i db = find (λ u. u.id == i) db.users

-- Tokens shorter than 16 characters are never looked up.
unfoldable pub by_invite_token : Text → Db → Option User
by_invite_token token db =
    if is_empty token || ltb (length token) 16
    then none
    else find (λ u. token_eq u.invite_token token) db.users

-- An assignment to attributes of the row with this id.
abbrev pub update_user : ℕ → (User → User) → List User → List User
update_user i f [] = []
update_user i f (u ∷ us) = if u.id == i then f u ∷ us else u ∷ update_user i f us

abbrev pub set_user : ℕ → (User → User) → Action (Unit {0})
set_user i f = modify (λ db. record db { users = update_user i f db.users })

-- `User(...)`, `add` and `flush`: the new row has the next number.
unfoldable pub create : Text → Role → Option ℕ → Option Text → Option Text → Option ℕ → Action User
create full_name role telegram_id username grade created_by_id db =
    let u : User = record {
      id = db.next_user;
      telegram_id = telegram_id;
      full_name = full_name;
      username = username;
      role = role;
      grade = grade;
      is_active = true;
      invite_token = none;
      invite_expires_at = none;
      invite_issued_at = none;
      created_by_id = created_by_id;
    } in
    (ok u, record db { users = db.users ++ u ∷ []; next_user = db.next_user + 1 })

abbrev pub is_none_or_empty : Option Text → Bool
is_none_or_empty none = true
is_none_or_empty (some t) = is_empty t

abbrev pub touched : Option Text → Text → User → User
touched username full_name u = record u {
  username = if is_none_or_empty username then u.username else username;
  full_name = if not (is_empty full_name) && is_empty u.full_name then full_name else u.full_name;
}

-- Assigning an equal username changes nothing, so the test `user.username != username` is not
-- repeated.
unfoldable pub touch_profile : User → Option Text → Text → Action (Unit {0})
touch_profile user username full_name = set_user user.id (touched username full_name)

abbrev pub day_us : ℕ
day_us = 86400000000

abbrev pub invite_ttl_days : ℕ
invite_ttl_days = 14

-- `token` is the answer of `secrets.token_urlsafe`.
unfoldable pub rotate_invite_token : Time → Text → User → Action Text
rotate_invite_token now token user = do
  set_user user.id (λ u. record u {
    invite_token = some token;
    invite_issued_at = some now;
    invite_expires_at = some (now + invite_ttl_days * day_us);
  })
  pure token

abbrev pub without_invite : User → User
without_invite u = record u { invite_token = none; invite_expires_at = none }

unfoldable pub revoke_invite : User → Action (Unit {0})
revoke_invite user = set_user user.id without_invite

abbrev pub is_link : ℕ → ℕ → Link → Bool
is_link a s l = (l.advisor_id == a) && (l.student_id == s)

unfoldable pub is_assigned : ℕ → ℕ → Db → Bool
is_assigned advisor_id student_id db = any (is_link advisor_id student_id) db.links

unfoldable pub link_student : ℕ → ℕ → Action (Unit {0})
unfolding is_assigned
link_student advisor_id student_id = modify λ db.
    if is_assigned advisor_id student_id db then db else record db {
      links = db.links ++ record { advisor_id = advisor_id; student_id = student_id } ∷ [];
    }

unfoldable pub unlink_student : ℕ → ℕ → Action (Unit {0})
unlink_student advisor_id student_id =
    modify λ db. record db { links = select (λ l. not (is_link advisor_id student_id l)) db.links }

-- `(grade or None)`
abbrev pub or_none : Option Text → Option Text
or_none none = none
or_none (some t) = if is_empty t then none else some t

unfoldable pub create_student_for_advisor :
    Time → Text → ℕ → Text → Option Text → Option ℕ → Action User
create_student_for_advisor now token advisor_id full_name grade telegram_id = do
  u ← create (strip full_name) student telegram_id none (or_none grade) (some advisor_id)
  if is_some telegram_id then pure token else rotate_invite_token now token u
  link_student advisor_id u.id
  pure u

-- Another account that already has the Telegram id.
abbrev pub other_account : User → Option User → Option User
other_account user none = none
other_account user (some d) = if d.id == user.id then none else some d

unfoldable pub attach_telegram_id : User → ℕ → Action (Unit {0})
attach_telegram_id user telegram_id = do
  duplicate ← gets (by_telegram_id telegram_id)
  raise_if (is_some (other_account user duplicate)) value_error
  set_user user.id (λ u. record (without_invite u) { telegram_id = some telegram_id })

unfoldable pub update_student : User → Text → Option Text → Action (Unit {0})
update_student user full_name grade = set_user user.id (λ u. record u {
  full_name = if is_empty full_name then u.full_name else full_name;
  grade = or_none grade;
})

-- An unused student row that had the id is folded away; any other account is refused.
unfoldable pub fold_duplicate : Option User → Action (Unit {0})
fold_duplicate none = pure tt
fold_duplicate (some d) = do
  raise_if (not (role_eq d.role student)) permission_error
  set_user d.id (λ u. record u { telegram_id = none; is_active = false })

unfoldable pub claim_invite : User → ℕ → Option Text → Action (Unit {0})
claim_invite user telegram_id username = do
  duplicate ← gets (by_telegram_id telegram_id)
  fold_duplicate (other_account user duplicate)
  set_user user.id
      (λ u. record (without_invite u) { telegram_id = some telegram_id; username = username })
