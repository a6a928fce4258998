-- ===== src/Bot/Session/Strangers.antt =====
-- Who gets an account by writing to the bot.
use planmaker.Common.{ℕ, ◌≡◌, refl, false, Option, none, Option-cases, inl, inr}
use planmaker.Common.Text.{Text}
use planmaker.Common.Result.{ok}
use planmaker.Common.Settings.{Settings}
use planmaker.Database.{Db, Time, AccessRequest}
use planmaker.Database.Action.{◌>>=◌}
use planmaker.Users.{by_telegram_id}
use planmaker.Requests.{record_visit, add_request, set_request, by_telegram_id_request}
use planmaker.Bot.Session.{
  TgUser, Event, is_invite_start, visitor, VisitorMessage, listed, name_or_id, registered, sender,
  admit, turn_away, Handler, Session, user_middleware, visitor_message,
}

record_visit-returns :
    (now : Time) (t : ℕ) (name : Text) (username : Option Text) (db : Db)
    → let (x, db') = record_visit now t name username db in
      (r : AccessRequest) × (x ≡ ok r) × (db'.users ≡ db.users) × (db'.plans ≡ db.plans)
unfolding record_visit add_request set_request ◌>>=◌
record_visit-returns now t name username db = elim (Option-cases (by_telegram_id_request t db)) [
  | inl new ↦ rw new (_, refl, refl, refl)
  | inr (r, found) ↦ rw found (_, refl, refl, refl)
]

-- Somebody without an account whom ADMIN_IDS does not list, and who does not come by an invite
-- link, never reaches the handler, whichever it is: the answer is the message to a visitor, and
-- neither an account nor a plan is created or changed.
pub strangers_stay_outside :
    {A : Type 0}
    → (cfg : Settings) (now : Time) (t : TgUser) (event : Event) (handler : Handler A) (s : Session)
    → by_telegram_id t.id s.current ≡ none
    → listed cfg t.id ≡ false
    → is_invite_start event ≡ false
    → let (x, after) = user_middleware cfg now t event handler s in
      (v : VisitorMessage) × (x ≡ ok (visitor v))
      × (after.current.users ≡ s.current.users)
      × (after.current.plans ≡ s.current.plans)
unfolding user_middleware sender registered admit turn_away ◌>>=◌
strangers_stay_outside cfg now t event handler s unknown unlisted uninvited =
    let (r, returns, users, plans) =
      record_visit-returns now t.id (name_or_id t) t.username s.current in
    rw (unknown, unlisted, uninvited, returns) (visitor_message r, refl, users, plans)
