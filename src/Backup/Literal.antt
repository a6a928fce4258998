-- ===== src/Backup/Literal.antt =====
-- app/services/backup.py: `sql_literal`, which writes one value into the dump.
--
-- What CPython prints of a float and of a timestamp is data: a value carries that text.
pub mod Reader
pub mod RoundTrip
use planmaker.Common.{
  ℕ, zero, suc, ◌-◌, length, ◌+◌, ◌/◌, ◌%◌, Bool, true, false, ◌||◌, List, [], ◌∷◌, ◌++◌, ltb, ◌==◌,
  if◌then◌else◌, any,
}
use planmaker.Common.Int.{ℤ, pos, negsuc}
use planmaker.Common.Text.{replace_text, Text, codes, decimal, starts_with}

-- The native types of a driver.
pub data Value : Type 0 where
  null : Value
  boolean : Bool → Value
  integer : ℤ → Value
  -- `repr` of a finite float, `str` of NaN and of the infinities
  finite special : Text → Value
  -- `value.isoformat(sep=" ")`
  timestamp : Text → Value
  octets : List ℕ → Value
  text : Text → Value

-- `str(n)` of an integer
unfoldable pub int_text : ℤ → Text
int_text (pos n) = decimal n
int_text (negsuc n) = 45 ∷ decimal (n + 1)

-- `t.replace(old, new)` for one character and a text.
unfoldable pub replace_by : ℕ → Text → Text → Text
replace_by old new [] = []
replace_by old new (c ∷ t) = (if c == old then new else c ∷ []) ++ replace_by old new t

abbrev hex_digit : ℕ → ℕ
hex_digit d = if ltb d 10 then 48 + d else 87 + d

-- `bytes(value).hex()`
unfoldable pub hex : List ℕ → Text
hex [] = []
hex (b ∷ bs) = hex_digit (b / 16) ∷ hex_digit (b % 16) ∷ hex bs

-- `ch in ("\\", "\n", "\r", "\t")`
abbrev pub is_escaped : ℕ → Bool
is_escaped c = (c == 92) || (c == 10) || (c == 13) || (c == 9)

abbrev pub quote : ℕ
quote = 39

-- The five replacements, in the order of the code.
unfoldable pub escape : Text → Text
unfolding replace_by
escape t = replace_by 9 (codes "\\t") (
    replace_by 13 (codes "\\r") (
      replace_by 10 (codes "\\n") (replace_by quote (codes "''") (replace_by 92 (codes "\\\\") t))))

unfoldable pub sql_literal : Value → Text
unfolding int_text decimal replace_text hex escape replace_by
sql_literal null = codes "NULL"
sql_literal (boolean b) = if b then codes "TRUE" else codes "FALSE"
sql_literal (integer n) = int_text n
sql_literal (finite r) = r
sql_literal (special r) = codes "'" ++ (r ++ codes "'")
sql_literal (timestamp t) =
    codes "'" ++ (replace_text (codes "+00:00") (codes "+00") t ++ codes "'")
sql_literal (octets bs) = codes "'\\x" ++ (hex bs ++ codes "'")
sql_literal (text t) =
    if any is_escaped t
    then codes "E'" ++ (escape t ++ codes "'")
    else codes "'" ++ (replace_by quote (codes "''") t ++ codes "'")
