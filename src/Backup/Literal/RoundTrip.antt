-- ===== src/Backup/Literal/RoundTrip.antt =====
-- The literal that the dump writes for a text, read back.
use planmaker.Common.{
  ℕ, ◌≡◌, refl, sym, ap, ◌∙◌, inl, inr, false, some, [], ◌∷◌, ◌++◌, ◌==◌, if◌then◌else◌, arith, any,
  Bool-cases,
}
use mathlib.Core.List.{append_assoc}
use planmaker.Common.Text.{Text, codes, starts_with}
use planmaker.Backup.Literal.{text, sql_literal, replace_by, escape, is_escaped, quote}
use planmaker.Backup.Literal.Reader.{prepend, read_plain, read_escaped, read_string}

pub replace_by-append :
    (old : ℕ) (new s t : Text)
    → replace_by old new (s ++ t) ≡ replace_by old new s ++ replace_by old new t
unfolding replace_by
replace_by-append old new [] t = refl
replace_by-append old new (c ∷ s) t =
    rw (replace_by-append old new s t) (sym (append_assoc (if c == old then new else c ∷ []) _ _))

escape-append : (s t : Text) → escape (s ++ t) ≡ escape s ++ escape t
unfolding escape
escape-append s t = simp replace_by-append

-- What the code writes for one character of an escape string.
abbrev escape_one : ℕ → Text
escape_one c =
    if c == 92
    then codes "\\\\"
    else if c == quote
    then codes "''"
    else if c == 10
    then codes "\\n"
    else if c == 13
    then codes "\\r"
    else if c == 9
    then codes "\\t"
    else c ∷ []

escape-one : (c : ℕ) → escape (c ∷ []) ≡ escape_one c
unfolding escape replace_by
escape-one c = ground arith

escape-cons : (c : ℕ) (t : Text) → escape (c ∷ t) ≡ escape_one c ++ escape t
escape-cons c t = escape-append (c ∷ []) t ∙ ap (λ h. h ++ escape t) (escape-one c)

read_escaped-one :
    (c : ℕ) (t : Text) → read_escaped (escape_one c ++ t) ≡ prepend c (read_escaped t)
read_escaped-one c t = ground arith

-- The text after a literal does not begin with a quote.
abbrev pub EndsLiteral : Text → Type 0
EndsLiteral rest = starts_with (quote ∷ []) rest ≡ false

read_escaped-escape :
    (s rest : Text) → EndsLiteral rest → read_escaped (escape s ++ quote ∷ rest) ≡ some (s, rest)
unfolding escape replace_by
read_escaped-escape [] rest ends = ground (arith, ends)
read_escaped-escape (c ∷ s) rest ends =
    rw (escape-cons c s)
      (rw append_assoc (rw (read_escaped-one c _) (rw (read_escaped-escape s rest ends) refl)))

read_plain-one :
    (c : ℕ) (t : Text)
    → read_plain ((if c == quote then codes "''" else c ∷ []) ++ t) ≡ prepend c (read_plain t)
read_plain-one c t = ground arith

read_plain-double :
    (s rest : Text)
    → EndsLiteral rest
    → read_plain (replace_by quote (codes "''") s ++ quote ∷ rest) ≡ some (s, rest)
unfolding replace_by
read_plain-double [] rest ends = ground (arith, ends)
read_plain-double (c ∷ s) rest ends =
    rw append_assoc (rw (read_plain-one c _) (rw (read_plain-double s rest ends) refl))

read_string-quote : (t : Text) → read_string (quote ∷ t) ≡ read_plain t
unfolding read_string
read_string-quote [] = refl
read_string-quote (c ∷ t) = refl

-- A text that `sql_literal` writes into the dump is read back by PostgreSQL as that text, and the
-- literal ends where the writer ended it, whatever quotes, backslashes and control characters the
-- text has, if what follows does not begin with a quote.
pub read_string-sql_literal :
    (s rest : Text) → EndsLiteral rest → read_string (sql_literal (text s) ++ rest) ≡ some (s, rest)
unfolding sql_literal read_string
read_string-sql_literal s rest ends = elim (Bool-cases (any is_escaped s)) [
  | inl yes_escaped ↦ rw yes_escaped (rw append_assoc (read_escaped-escape s rest ends))
  | inr no_escaped ↦
      rw no_escaped (rw read_string-quote (rw append_assoc (read_plain-double s rest ends)))
]
