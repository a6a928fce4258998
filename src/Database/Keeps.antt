-- ===== src/Database/Keeps.antt =====
-- What an action leaves alone: a view of the tables that it does not change, whether it returns
-- or raises. One rule for each way to build an action.
use planmaker.Common.{ℕ, ◌≡◌, refl, ◌∙◌, Bool, true, false, Option, none, some, if◌then◌else◌, List}
use planmaker.Common.Result.{Exception, Result, ok, err}
use planmaker.Database.{Db, AuditRow}
use Prim.Native.String.{String}
use planmaker.Database.Action.{
  Action, pure, raise, gets, or_raise, raise_if, modify, ◌>>=◌, continue, lift, audit_log, if_none,
}

pub record Keeps {A X : Type 0} (view : Db → X) (m : Action A) : Type 0 where
  pub at : (db : Db) → view (m db).1 ≡ view db

module _ {A X : Type 0} {view : Db → X} where
  pub Keeps-pure : (a : A) → Keeps view (pure a)
  unfolding pure
  Keeps-pure a = record { at = λ db. refl }

  pub Keeps-raise : (e : Exception) → Keeps view (raise {A = A} e)
  unfolding raise
  Keeps-raise e = record { at = λ db. refl }

  pub Keeps-lift : (r : Result A) → Keeps view (lift r)
  unfolding lift
  Keeps-lift r = record { at = λ db. refl }

  pub Keeps-gets : (f : Db → A) → Keeps view (gets f)
  unfolding gets
  Keeps-gets f = record { at = λ db. refl }

  pub Keeps-or_raise : (o : Option A) (e : Exception) → Keeps view (or_raise o e)
  unfolding or_raise
  Keeps-or_raise none e = record { at = λ db. refl }
  Keeps-or_raise (some a) e = record { at = λ db. refl }

  pub Keeps-if :
      (b : Bool) (m n : Action A) → Keeps view m → Keeps view n → Keeps view (if b then m else n)
  Keeps-if true m n km kn = km
  Keeps-if false m n km kn = kn

module _ {X : Type 0} {view : Db → X} where
  pub Keeps-raise_if : (b : Bool) (e : Exception) → Keeps view (raise_if b e)
  unfolding raise_if
  Keeps-raise_if b e = record { at = λ db. refl }

  pub Keeps-modify : (f : Db → Db) → ((db : Db) → view (f db) ≡ view db) → Keeps view (modify f)
  unfolding modify
  Keeps-modify f h = record { at = h }

  pub Keeps-audit_log :
      (action : String) (actor plan student : Option ℕ)
      → ((db : Db) (rows : List AuditRow) → view (record db { audit = rows }) ≡ view db)
      → Keeps view (audit_log action actor plan student)
  unfolding audit_log
  Keeps-audit_log action actor plan student h = record { at = λ db. h db _ }

module _ {A B X : Type 0} {view : Db → X} where
  continue-Keeps :
      (r : Result A) (k : A → Action B) (db : Db)
      → ((a : A) → Keeps view (k a))
      → view (continue r k db).1 ≡ view db
  continue-Keeps (ok a) k db h = (h a).at db
  continue-Keeps (err e) k db h = refl

  pub Keeps-if_none :
      (o : Option A) (m : Action B) (f : A → Action B)
      → Keeps view m
      → ((a : A) → Keeps view (f a))
      → Keeps view (if_none o m f)
  unfolding if_none
  Keeps-if_none none m f km kf = record { at = km.at }
  Keeps-if_none (some a) m f km kf = record { at = (kf a).at }

  pub Keeps-bind :
      (m : Action A) (k : A → Action B)
      → Keeps view m
      → ((a : A) → Keeps view (k a))
      → Keeps view (m >>= k)
  unfolding ◌>>=◌
  Keeps-bind m k km kk = record {
    at = λ db. let (r, db') = m db in continue-Keeps r k db' kk ∙ km.at db;
  }

pub ruleset keeps_rules = (
  Keeps-pure, Keeps-raise, Keeps-gets, Keeps-or_raise, Keeps-lift, Keeps-if, Keeps-raise_if,
  Keeps-if_none, Keeps-bind,
)
