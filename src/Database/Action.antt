-- ===== src/Database/Action.antt =====
-- A method of a repository or a service: it reads and writes the tables and may raise. The tables
-- come back beside an exception too, since what was flushed before a raise stays in the session
-- until somebody rolls it back.
use planmaker.Common.{ℕ, Bool, Option, none, some, if◌then◌else◌, ◌++◌, [], ◌∷◌}
use planmaker.Common.Result.{Exception, Result, ok, err}
use planmaker.Database.{Db}
use Prim.Native.String.{String}

abbrev pub Action : Type 0 → Type 0
Action A = Db → Result A × Db

module _ {A : Type 0} where
  unfoldable pub pure : A → Action A
  pure a db = (ok a, db)

  unfoldable pub raise : Exception → Action A
  raise e db = (err e, db)

  unfoldable pub gets : (Db → A) → Action A
  gets f db = (ok (f db), db)

  unfoldable pub lift : Result A → Action A
  lift r db = (r, db)

  -- The value, or the caller's exception for `None`.
  unfoldable pub or_raise : Option A → Exception → Action A
  or_raise none e db = (err e, db)
  or_raise (some a) e db = (ok a, db)

unfoldable pub raise_if : Bool → Exception → Action (Unit {0})
raise_if c e db = (if c then err e else ok tt, db)

unfoldable pub modify : (Db → Db) → Action (Unit {0})
modify f db = (ok tt, f db)

module _ {A B : Type 0} where
  -- `if x is None: … else: …`
  unfoldable pub if_none : Option A → Action B → (A → Action B) → Action B
  if_none none m f db = m db
  if_none (some a) m f db = f a db

  abbrev pub continue : Result A → (A → Action B) → Action B
  continue (ok a) f db = f a db
  continue (err e) f db = (err e, db)

  infixl 5 ◌>>=◌ ◌>>◌
  -- Opening this opens the actions above too.
  unfoldable pub ◌>>=◌ : Action A → (A → Action B) → Action B
  unfolding pure raise gets lift or_raise raise_if modify if_none
  ◌>>=◌ m f db = let (r, db') = m db in continue r f db'

  abbrev pub ◌>>◌ : Action A → Action B → Action B
  m >> k = m >>= λ _. k

-- `AuditRepository.log` (app/repositories/repositories.py), without the detail text.
unfoldable pub audit_log : String → Option ℕ → Option ℕ → Option ℕ → Action (Unit {0})
audit_log action actor_id plan_id student_id db = (
  ok tt,
  record db {
    audit =
        db.audit
        ++ record {
          action = action;
          actor_id = actor_id;
          plan_id = plan_id;
          student_id = student_id;
        }
          ∷ [];
  },
)
