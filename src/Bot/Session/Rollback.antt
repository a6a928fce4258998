-- ===== src/Bot/Session/Rollback.antt =====
-- app/bot/middlewares.py: commit, rollback and the error shield.
use planmaker.Common.{
  ◌≡◌, refl, Bool, false, Option, none, some, not, ◌&&◌, ◌||◌, inl, inr, ◌⊎◌, Bool-cases,
}
use planmaker.Common.Text.{codes, starts_with}
use planmaker.Common.Result.{Exception, Result, ok, err}
use planmaker.Common.Settings.{Settings}
use planmaker.Database.{Db, Time, User, admin}
use planmaker.Database.Action.{Action}
use planmaker.Security.{role_eq}
use planmaker.Bot.Session.{
  TgUser, Event, data_of, is_invite_start, listed, Reply, Session, SessionAction, in_session,
  Handler, admit, sender, continued, user_middleware, answered, settle, closed, database_middleware,
  error_middleware, shield, shielded, serve,
}

-- A property of the committed tables that the commits of an operation leave true.
abbrev pub CommitsKeep : {A : Type 0} → (Db → Type 0) → SessionAction A → Type 0
CommitsKeep P m = (s : Session) → P s.committed → P (m s).1.committed

in_session-commits : {A : Type 0} → (P : Db → Type 0) (m : Action A) → CommitsKeep P (in_session m)
in_session-commits P m s h = h

admit-commits :
    {A : Type 0}
    → (P : Db → Type 0) (cfg : Settings) (now : Time) (t : TgUser) (event : Event)
      (handler : Handler A) (user : Option User)
    → ((u : Option User) (b : Bool) → CommitsKeep P (handler u b))
    → CommitsKeep P (admit cfg now t event handler user)
unfolding admit
admit-commits P cfg now t event handler none keeps s h = elim (Bool-cases (is_invite_start event)) [
  | inl invited ↦ rw invited (keeps none (listed cfg t.id) s h)
  | inr uninvited ↦ rw uninvited h
]
admit-commits P cfg now t event handler (some u) keeps s h =
    keeps (some u) (listed cfg t.id || role_eq u.role admin) s h

continued-commits :
    {A B : Type 0}
    → (P : Db → Type 0) (f : A → SessionAction B) (r : Result A × Session)
    → ((a : A) → CommitsKeep P (f a))
    → P r.1.committed
    → P (continued f r).1.committed
continued-commits P f (ok a, s) keeps h = keeps a s h
continued-commits P f (err e, s) keeps h = h

-- The chain under the shield commits nothing of its own.
user_middleware-commits :
    {A : Type 0}
    → (P : Db → Type 0) (cfg : Settings) (now : Time) (t : TgUser) (event : Event)
      (handler : Handler A)
    → ((u : Option User) (b : Bool) → CommitsKeep P (handler u b))
    → CommitsKeep P (user_middleware cfg now t event handler)
unfolding user_middleware
user_middleware-commits P cfg now t event handler keeps s h =
    continued-commits P (admit cfg now t event handler) (in_session (sender cfg t) s)
      (λ user. admit-commits P cfg now t event handler user keeps) h

settle-cases :
    {A : Type 0}
    → (P : Db → Type 0) (missing : Exception → Bool) (out : Result A × Session) → P out.1.committed
    → ((a : A) × (out.0 ≡ ok a)
        × (shielded missing (settle out).0 ≡ answered (some a))
        × (closed (settle out).1 ≡ out.1.current))
      ⊎ ((e : Exception) × (old : Db) × (out.0 ≡ err e)
          × (shielded missing (settle out).0 ≡ shield missing e)
          × P old
          × (closed (settle out).1 ≡ record old { disk = out.1.current.disk }))
settle-cases P missing (ok a, s) h = inl (a, refl, refl, refl)
settle-cases P missing (err e, s) h = inr (e, s.committed, refl, refl, h, refl)

-- The session of an update, at its start.
abbrev pub opened_session : Db → Session
opened_session db = record { committed = db; current = db }

-- An update that is let through ends in one of two ways. Either the chain under the shield has
-- returned, and everything that it wrote is there; or it has raised, the user gets the shield's
-- message for that exception, and of the tables nothing is there that was not committed: they have
-- every property that the tables had before the update and that the handler's own commits keep. A
-- handler that commits nothing leaves the tables from before.
pub serve_all_or_nothing :
    {A : Type 0}
    → (P : Db → Type 0) (cfg : Settings) (missing : Exception → Bool) (restoring : Bool)
      (now : Time) (t : TgUser) (event : Event) (handler : Handler A) (db : Db)
    → (restoring && not (starts_with (codes "ad:backup_restore_do") (data_of event))) ≡ false
    → P db
    → ((u : Option User) (b : Bool) → CommitsKeep P (handler u b))
    → let (r, s) = user_middleware cfg now t event handler (opened_session db) in
      let out = serve cfg missing restoring now t event handler db in
      ((a : Reply A) × (r ≡ ok a) × (out.0 ≡ answered (some a)) × (out.1 ≡ s.current))
      ⊎ ((e : Exception) × (old : Db) × (r ≡ err e)
          × (out.0 ≡ shield missing e)
          × P old
          × (out.1 ≡ record old { disk = s.current.disk }))
unfolding serve error_middleware database_middleware
serve_all_or_nothing P cfg missing restoring now t event handler db h start keeps = rw h (
    settle-cases P missing (user_middleware cfg now t event handler (opened_session db))
      (user_middleware-commits P cfg now t event handler keeps (opened_session db) start))
