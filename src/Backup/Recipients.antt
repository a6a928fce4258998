-- ===== src/Backup/Recipients.antt =====
-- `BotSettings.recipient_list` of app/db/models.py: who receives the archive.
--
-- `isdigit` and `int` are those of ASCII texts: the column holds `str` of integers and commas.
pub mod RoundTrip
use planmaker.Common.{
  ℕ, zero, suc, ◌+◌, ◌-◌, ◌*◌, Bool, true, false, not, ◌&&◌, ◌||◌, Option, none, some, List, [],
  ◌∷◌, ◌++◌, leb, ◌==◌, if◌then◌else◌, any, all, select,
}
use planmaker.Common.Int.{ℤ, pos, negsuc}
use planmaker.Common.Result.{Result, ok, err, ◌>>=◌, value_error}
use planmaker.Common.Text.{Text, split_on, is_empty}
use planmaker.Common.Text.Decimal.{is_digit, digits_value}
use planmaker.Backup.Row.{BackupDefaults, BotSettings}

abbrev pub int_eq : ℤ → ℤ → Bool
int_eq (pos a) (pos b) = a == b
int_eq (pos a) (negsuc b) = false
int_eq (negsuc a) (pos b) = false
int_eq (negsuc a) (negsuc b) = a == b

abbrev pub minus : ℕ
minus = 45

-- `t.lstrip("-")`
unfoldable pub lstrip_minus : Text → Text
lstrip_minus [] = []
lstrip_minus (c ∷ t) = if c == minus then lstrip_minus t else c ∷ t

-- `t.isdigit()`
abbrev pub is_number : Text → Bool
is_number t = not (is_empty t) && all is_digit t

-- `-n`
abbrev pub negated : ℕ → ℤ
negated zero = pos 0
negated (suc n) = negsuc n

-- `int(t)` of digits after at most one minus: a ValueError otherwise.
abbrev pub parse_int : Text → Result ℤ
parse_int [] = err value_error
parse_int (c ∷ t) =
    if c == minus
    then (if is_number t then ok (negated (digits_value 0 t)) else err value_error)
    else if is_number (c ∷ t)
    then ok (pos (digits_value 0 (c ∷ t)))
    else err value_error

abbrev pub add_id : List ℤ → ℤ → List ℤ
add_id ids value = if any (int_eq value) ids then ids else ids ++ value ∷ []

-- The loop over the chunks.
unfoldable pub read_ids : List ℤ → List Text → Result (List ℤ)
unfolding lstrip_minus
read_ids ids [] = ok ids
read_ids ids (chunk ∷ chunks) =
    let skipped = read_ids ids chunks in
    let taken = do value ← parse_int chunk; read_ids (add_id ids value) chunks
    in if is_number (lstrip_minus chunk) then taken else skipped

abbrev or_empty : Option Text → Text
or_empty none = []
or_empty (some t) = t

abbrev pub or_ids : List ℤ → List ℤ → List ℤ
or_ids [] others = others
or_ids (i ∷ ids) others = i ∷ ids

unfoldable pub recipient_list : BackupDefaults → BotSettings → Result (List ℤ)
unfolding read_ids split_on
recipient_list env row = do
  ids ← read_ids [] (split_on 44 (select (λ c. not (c == 32)) (or_empty row.backup_recipients)))
  ok (or_ids ids (or_ids env.backup_chat_ids env.admin_ids))
