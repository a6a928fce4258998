-- ===== src/Bot/Session.antt =====
-- app/bot/middlewares.py: DatabaseMiddleware, UserMiddleware and ErrorMiddleware, around a handler.
--
-- A handler is given the account, `none` for a stranger with an invite link, and whether the sender
-- counts as an administrator. It may commit before it returns, as some of app/bot/handlers do, so
-- that it works on the session: the tables that are committed, and those that it sees. `none` as an
-- answer is the middlewares' `None`.
pub mod Strangers
pub mod Rollback
use planmaker.Common.{
  ℕ, Bool, true, false, not, ◌&&◌, ◌||◌, Option, none, some, List, [], ◌∷◌, ◌==◌, ltb,
  if◌then◌else◌, any,
}
use planmaker.Common.Text.{Text, codes, is_empty, starts_with, contains, decimal}
use planmaker.Common.Result.{
  Exception, Result, ok, err, access_denied, permission_error, plan_generation_error,
}
use planmaker.Common.Settings.{Settings}
use planmaker.Database.{Db, Time, User, Role, admin, AccessRequest, RequestStatus, rejected}
use planmaker.Database.Action.{Action, pure, gets, ◌>>=◌, ◌>>◌}
use planmaker.Security.{role_eq}
use planmaker.Users
use planmaker.Users.{by_telegram_id, touch_profile, touched, set_user}
use planmaker.Requests.{record_visit}

-- What Telegram says of the sender, and the event's message text or button payload.
pub record TgUser : Type 0 where
  pub id : ℕ
  pub full_name : Text
  pub username : Option Text

pub data Event : Type 0 where
  message : Text → Event
  callback : Text → Event

abbrev pub text_of : Event → Text
text_of (message t) = t
text_of (callback payload) = []

abbrev pub data_of : Event → Text
data_of (message t) = []
data_of (callback payload) = payload

abbrev pub is_invite_start : Event → Bool
is_invite_start event =
    starts_with (codes "/start") (text_of event) && contains (codes "inv_") (text_of event)

-- `_visitor_message`
pub data VisitorMessage : Type 0 where
  access_rejected access_pending_again access_pending : VisitorMessage

abbrev pub is_rejected : RequestStatus → Bool
is_rejected rejected = true
is_rejected _ = false

unfoldable pub visitor_message : AccessRequest → VisitorMessage
visitor_message r =
    if is_rejected r.status
    then access_rejected
    else if ltb 1 r.visits
    then access_pending_again
    else access_pending

-- What came of an update: the handler's answer, or the message to a stranger.
pub data Reply (A : Type 0) : Type 0 where
  handled : A → Reply A
  visitor : VisitorMessage → Reply A

abbrev pub name_or_id : TgUser → Text
name_or_id t = if is_empty t.full_name then decimal t.id else t.full_name

abbrev pub listed : Settings → ℕ → Bool
listed cfg t = any (λ a. t == a) cfg.admin_ids

-- ADMIN_IDS may only ever promote, and an administrator can never be locked out.
abbrev pub promoted : Bool → User → User
promoted is_admin_id u = if is_admin_id then record u { role = admin; is_active = true } else u

-- The account behind the sender: a listed administrator's is created when it is missing, a known
-- account is touched and promoted.
unfoldable pub registered : Settings → TgUser → Option User → Action (Option User)
registered cfg t none =
    if listed cfg t.id
    then (do u ← Users.create (name_or_id t) admin (some t.id) t.username none none; pure (some u))
    else pure none
registered cfg t (some u) = do
  touch_profile u t.username (name_or_id t)
  set_user u.id (promoted (listed cfg t.id))
  pure (some (promoted (listed cfg t.id) (touched t.username (name_or_id t) u)))

-- The session of one update: the tables at its last commit, or at its start, and those behind what
-- was flushed since.
pub record Session : Type 0 where
  pub committed : Db
  pub current : Db

abbrev pub SessionAction : Type 0 → Type 0
SessionAction A = Session → Result A × Session

-- An operation of the services, which commits nothing.
abbrev pub in_session : {A : Type 0} → Action A → SessionAction A
in_session m s = let (r, new) = m s.current in (r, record s { current = new })

-- `await session.commit()`
abbrev pub commit : Session → Session
commit s = record s { committed = s.current }

abbrev pub Handler : Type 0 → Type 0
Handler A = Option User → Bool → SessionAction A

abbrev pub handled_result : {A : Type 0} → Result A → Result (Reply A)
handled_result (ok a) = ok (handled a)
handled_result (err e) = err e

abbrev pub handle : {A : Type 0} → SessionAction A → SessionAction (Reply A)
handle m s = let (r, new) = m s in (handled_result r, new)

unfoldable pub turn_away : {A : Type 0} → Time → TgUser → Action (Reply A)
turn_away now t = do
  r ← record_visit now t.id (name_or_id t) t.username
  pure (visitor (visitor_message r))

-- A stranger gets through with an invite link only; any other visit is recorded as a request.
unfoldable pub admit :
    {A : Type 0}
    → Settings
    → Time
    → TgUser
    → Event
    → Handler A
    → Option User
    → SessionAction (Reply A)
unfolding turn_away
admit cfg now t event handler none s =
    if is_invite_start event
    then handle (handler none (listed cfg t.id)) s
    else in_session (turn_away now t) s
admit cfg now t event handler (some u) s =
    handle (handler (some u) (listed cfg t.id || role_eq u.role admin)) s

-- The account behind the sender.
unfoldable pub sender : Settings → TgUser → Action (Option User)
unfolding registered
sender cfg t = do found ← gets (by_telegram_id t.id); registered cfg t found

abbrev pub continued :
    {A B : Type 0} → (A → SessionAction B) → Result A × Session → Result B × Session
continued f (ok a, s) = f a s
continued f (err e, s) = (err e, s)

unfoldable pub user_middleware :
    {A : Type 0} → Settings → Time → TgUser → Event → Handler A → SessionAction (Reply A)
unfolding sender admit
user_middleware cfg now t event handler s =
    continued (admit cfg now t event handler) (in_session (sender cfg t) s)

-- `session.rollback()`: the tables are those at the last commit; the disk has no rollback.
abbrev pub rolled_back : Session → Session
rolled_back s = record s { current = record s.committed { disk = s.current.disk } }

abbrev pub settle : {A : Type 0} → Result A × Session → Result (Option A) × Session
settle (ok a, s) = (ok (some a), commit s)
settle (err e, s) = (err e, rolled_back s)

-- The session is closed: of the tables, what was committed is there.
abbrev pub closed : Session → Db
closed s = record s.committed { disk = s.current.disk }

-- While a restore runs, only its confirmation button goes through. The session of an update starts
-- at the tables as they are, and what it has committed is what the next update finds.
unfoldable pub database_middleware :
    {A : Type 0} → Bool → Event → SessionAction A → Action (Option A)
database_middleware restoring event m db =
    let (r, s) = settle (m (record { committed = db; current = db })) in
    if restoring && not (starts_with (codes "ad:backup_restore_do") (data_of event))
    then (ok none, db)
    else (r, closed s)

-- What the user is told of an error.
pub data Shield (A : Type 0) : Type 0 where
  answered : A → Shield A
  denied generation_failed schema_missing generic_error : Shield A

-- Whether an exception says that the schema is missing is read off the driver's message.
abbrev pub shield : {A : Type 0} → (Exception → Bool) → Exception → Shield A
shield missing_schema access_denied = denied
shield missing_schema permission_error = denied
shield missing_schema plan_generation_error = generation_failed
shield missing_schema e = if missing_schema e then schema_missing else generic_error

abbrev pub shielded : {A : Type 0} → (Exception → Bool) → Result A → Shield A
shielded missing_schema (ok a) = answered a
shielded missing_schema (err e) = shield missing_schema e

unfoldable pub error_middleware : {A : Type 0} → (Exception → Bool) → Action A → Db → Shield A × Db
error_middleware missing_schema m db = let (r, new) = m db in (shielded missing_schema r, new)

-- The chain around every handler, as `build_dispatcher` registers it; throttling stands between the
-- first two and only drops updates.
unfoldable pub serve :
    {A : Type 0}
    → Settings
    → (Exception → Bool)
    → Bool
    → Time
    → TgUser
    → Event
    → Handler A
    → Db
    → Shield (Option (Reply A)) × Db
serve cfg missing_schema restoring now t event handler =
    error_middleware missing_schema
      (database_middleware restoring event (user_middleware cfg now t event handler))
