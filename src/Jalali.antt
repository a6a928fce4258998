-- ===== src/Jalali.antt =====
-- app/domain/calendar.py, class JalaliDate: dates as Jalali texts, and reading them.
--
-- The conversion between the calendars is jdatetime's. `isdigit` and `int` are Python's, which know
-- the digits of every script.
pub mod RoundTrip
use planmaker.Common.{
  ℕ, zero, suc, ◌+◌, ◌-◌, Bool, true, false, not, ◌&&◌, Option, none, some, List, [], ◌∷◌, ◌++◌,
  map, ◌==◌, if◌then◌else◌, length, select, all, get_elem?,
}
use planmaker.Common.Result.{Result, ok, err, date_range_error, value_error, ◌>>=◌}
use planmaker.Common.Text.{
  Text, codes, decimal, is_empty, strip, split_on, join, replace_char, replace_text,
}
use planmaker.Calendar.{Date}
use planmaker.Persian.{to_fa_digits, to_en_digits}

pub record Jalali : Type 0 where
  pub year : ℕ
  pub month : ℕ
  pub day : ℕ

-- jdatetime, whose two conversions raise outside of its range, and the two functions of Python on
-- texts.
pub record Library : Type 0 where
  pub to_jalali : Date → Option Jalali
  pub from_jalali : ℕ → ℕ → ℕ → Option Date
  pub isdigit : Text → Bool
  pub int : Text → Option ℕ

abbrev pub zeros : ℕ → Text
zeros zero = []
zeros (suc n) = 48 ∷ zeros n

-- `f"{n:04d}"` for a width of 4
unfoldable pub padded : ℕ → ℕ → Text
unfolding decimal
padded width n = zeros (width - length (decimal n)) ++ decimal n

-- `JalaliDate.to_jalali`: a ValueError for a date that jdatetime does not convert.
abbrev pub jalali : Option Jalali → Result Jalali
jalali none = err value_error
jalali (some j) = ok j

unfoldable pub short : Library → Date → Result Text
unfolding padded
short lib value = do
  j ← jalali (lib.to_jalali value)
  ok (
      to_fa_digits
        (padded 4 j.year ++ (codes "/" ++ (padded 2 j.month ++ (codes "/" ++ padded 2 j.day)))))

-- JALALI_MONTHS, from Farvardin to Esfand, as code points.
abbrev pub months : List Text
months =
    (1601 ∷ 1585 ∷ 1608 ∷ 1585 ∷ 1583 ∷ 1740 ∷ 1606 ∷ [])
    ∷ (1575 ∷ 1585 ∷ 1583 ∷ 1740 ∷ 1576 ∷ 1607 ∷ 1588 ∷ 1578 ∷ [])
    ∷ (1582 ∷ 1585 ∷ 1583 ∷ 1575 ∷ 1583 ∷ [])
    ∷ (1578 ∷ 1740 ∷ 1585 ∷ [])
    ∷ (1605 ∷ 1585 ∷ 1583 ∷ 1575 ∷ 1583 ∷ [])
    ∷ (1588 ∷ 1607 ∷ 1585 ∷ 1740 ∷ 1608 ∷ 1585 ∷ [])
    ∷ (1605 ∷ 1607 ∷ 1585 ∷ [])
    ∷ (1570 ∷ 1576 ∷ 1575 ∷ 1606 ∷ [])
    ∷ (1570 ∷ 1584 ∷ 1585 ∷ [])
    ∷ (1583 ∷ 1740 ∷ [])
    ∷ (1576 ∷ 1607 ∷ 1605 ∷ 1606 ∷ [])
    ∷ (1575 ∷ 1587 ∷ 1601 ∷ 1606 ∷ 1583 ∷ [])
    ∷ []

abbrev or_empty : Option Text → Text
or_empty none = []
or_empty (some t) = t

-- `JALALI_MONTHS[month - 1]`, for a month of the calendar.
abbrev month_name : ℕ → Text
month_name month = or_empty (get_elem? months (month - 1))

-- The word for "to", and with its spaces.
abbrev pub to_word : Text
to_word = 1578 ∷ 1575 ∷ []

abbrev to : Text
to = 32 ∷ 1578 ∷ 1575 ∷ 32 ∷ []

abbrev spaced : List Text → Text
spaced parts = to_fa_digits (join (codes " ") parts)

unfoldable pub day_month : Library → Date → Result Text
unfolding decimal join
day_month lib value = do
  j ← jalali (lib.to_jalali value)
  ok (spaced (decimal j.day ∷ month_name j.month ∷ []))

unfoldable pub long : Library → Date → Result Text
unfolding decimal join
long lib value = do
  j ← jalali (lib.to_jalali value)
  ok (spaced (decimal j.day ∷ month_name j.month ∷ decimal j.year ∷ []))

-- The text of the second date, with its year.
abbrev pub full : Jalali → Text
full j = join (codes " ") (decimal j.day ∷ month_name j.month ∷ decimal j.year ∷ [])

unfoldable pub range_label : Library → Date → Date → Result Text
unfolding long decimal join
range_label lib start end = do
  js ← jalali (lib.to_jalali start)
  je ← jalali (lib.to_jalali end)
  first ← long lib start
  last ← long lib end
  ok (
      if start == end
      then first
      else if (js.year == je.year) && (js.month == je.month)
      then to_fa_digits (decimal js.day ++ (to ++ full je))
      else if js.year == je.year
      then to_fa_digits
          (join (codes " ") (decimal js.day ∷ month_name js.month ∷ []) ++ (to ++ full je))
      else first ++ (to ++ last))

-- `.replace("-", "/").replace(".", "/").replace(" ", "/")`
abbrev pub slashes : Text → Text
slashes t = replace_char 32 47 (replace_char 46 47 (replace_char 45 47 t))

abbrev pub date_parts : Text → List Text
date_parts text = select (λ p. not (is_empty p)) (split_on 47 (slashes (to_en_digits (strip text))))

abbrev int_of : Option ℕ → Result ℕ
int_of none = err value_error
int_of (some n) = ok n

abbrev date_of : Option Date → Result Date
date_of none = err date_range_error
date_of (some d) = ok d

-- `year, month, day = (int(p) for p in parts)`, outside of the try block.
abbrev from_parts : Library → Text → Text → Text → Result Date
from_parts lib y m d = do
  year ← int_of (lib.int y)
  month ← int_of (lib.int m)
  day ← int_of (lib.int d)
  date_of (lib.from_jalali year month day)

abbrev pub checked_parts : Library → List Text → Result Date
checked_parts lib (y ∷ m ∷ d ∷ []) =
    if lib.isdigit y && lib.isdigit m && lib.isdigit d
    then from_parts lib y m d
    else err date_range_error
checked_parts lib _ = err date_range_error

unfoldable pub parse : Library → Text → Result Date
unfolding strip split_on replace_char
parse lib text = checked_parts lib (date_parts text)

-- `"".join` of the two dates of a range.
abbrev both_dates : Library → Text → Text → Result (Date × Date)
both_dates lib s t = do start ← parse lib s; end ← parse lib t; ok (start, end)

abbrev pub range_chunks : Text → List Text
range_chunks text =
    select (λ c. not (is_empty c))
      (map strip (
        split_on 45
          (replace_char 10 45 (replace_char 1548 45 (replace_text (to_word) (codes "-") text)))))

abbrev pub chunk_dates : Library → List Text → Result (Date × Date)
chunk_dates lib (s ∷ t ∷ []) = both_dates lib s t
chunk_dates lib (a ∷ b ∷ c ∷ d ∷ e ∷ f ∷ []) =
    both_dates lib (join (codes "/") (a ∷ b ∷ c ∷ [])) (join (codes "/") (d ∷ e ∷ f ∷ []))
chunk_dates lib _ = err date_range_error

unfoldable pub parse_range : Library → Text → Result (Date × Date)
unfolding parse strip split_on replace_char replace_text join
parse_range lib text = chunk_dates lib (range_chunks text)
