-- ===== src/Common/Result.antt =====
-- The exceptions that the program raises, one constructor for each place that raises, and the
-- results of calls that may raise.
use mathlib.Core.Path.{◌≡◌, refl}

-- The classes that a handler tells apart (app/bot/middlewares.py, ErrorMiddleware).
pub data Exception : Type 0 where
  access_denied student_error date_range_error value_error permission_error key_error : Exception
  plan_generation_error restore_error other_error : Exception

pub data Result {ℓ} (A : Type ℓ) : Type ℓ where
  ok : A → Result A
  err : Exception → Result A

-- The next call runs on the value of one that returns.
abbrev pub and_then {ℓ κ} : {A : Type ℓ} {B : Type κ} → (A → Result B) → Result A → Result B
and_then next (err raised) = err raised
and_then next (ok value) = next value

infixl 5 ◌>>=◌
abbrev pub ◌>>=◌ {ℓ κ} : {A : Type ℓ} {B : Type κ} → Result A → (A → Result B) → Result B
call >>= next = and_then next call

pub ok-injective {ℓ} : {A : Type ℓ} {a b : A} → ok a ≡ ok b → a ≡ b
ok-injective h = cc

module _ {ℓ κ} {A : Type ℓ} {B : Type κ} where
  -- A chain that succeeds has succeeded at its first step.
  pub >>=-eq_ok :
      (call : Result A) (next : A → Result B) {last : B}
      → (call >>= next) ≡ ok last
      → (first : A) × (call ≡ ok first) × (next first ≡ ok last)
  >>=-eq_ok (err raised) next returns = cc
  >>=-eq_ok (ok value) next returns = (value, refl, returns)
