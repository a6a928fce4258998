-- ===== src/Persian.antt =====
-- app/domain/persian.py and the digit tables of app/domain/calendar.py: digits in Persian and in
-- Latin, and the normalisation of Persian text.
pub mod Digits
use planmaker.Common.{
  ℕ, ◌+◌, ◌-◌, Bool, true, false, not, ◌&&◌, ◌||◌, List, [], ◌∷◌, map, leb, ◌==◌, if◌then◌else◌,
  select,
}
use planmaker.Common.Text.{Text, codes, join, split}

-- `_TO_FA`, from the digit 0 (48) to the Persian zero (1776) and so on.
abbrev pub fa_char : ℕ → ℕ
fa_char c = if leb 48 c && leb c 57 then c + 1728 else c

-- `_TO_EN`: Persian digits from 1776, Arabic digits from 1632.
abbrev pub en_char : ℕ → ℕ
en_char c =
    if leb 1776 c && leb c 1785 then c - 1728 else if leb 1632 c && leb c 1641 then c - 1584 else c

-- `JalaliDate.fa` of a text
abbrev pub to_fa_digits : Text → Text
to_fa_digits t = map fa_char t

abbrev pub to_en_digits : Text → Text
to_en_digits t = map en_char t

-- `style == "fa"`
abbrev pub apply_digit_style : Text → Bool → Text
apply_digit_style t is_fa = if is_fa then to_fa_digits t else to_en_digits t

-- The Arabic letters ya and kaf become the Persian ones.
abbrev pub persian_letter : ℕ → ℕ
persian_letter c = if c == 1610 then 1740 else if c == 1603 then 1705 else c

-- U+200F, U+200E, U+FEFF
abbrev pub is_junk : ℕ → Bool
is_junk c = (c == 8207) || (c == 8206) || (c == 65279)

unfoldable pub normalize_fa : Text → Text
normalize_fa t = join (codes " ") (split (map persian_letter (select (λ c. not (is_junk c)) t)))
