-- ===== src/Jalali/RoundTrip.antt =====
-- app/domain/calendar.py: a date that is written and read.
use planmaker.Common.{
  ℕ, zero, suc, ◌-◌, ◌≡◌, refl, ap, ◌∙◌, Bool, true, false, not, ◌&&◌, ◌||◌, some, [], ◌∷◌, ◌++◌,
  map, ◌==◌, length, select, all, all-imp, all-append, arith,
}
use mathlib.Core.List.{reverse, reverse-reverse, reverse-cons}
use planmaker.Common.Result.{ok, ◌>>=◌}
use planmaker.Common.Text.{
  Text, codes, decimal, is_empty, strip, drop_space, is_space, split_on, join, replace_char,
}
use planmaker.Common.Text.Decimal.{
  is_digit, digits_value, digits_value-decimal, decimal-digits, decimal-nonempty,
}
use planmaker.Common.Text.Split.{Lacks, split_on-join}
use planmaker.Calendar.{Date}
use planmaker.Persian.{to_fa_digits, to_en_digits, fa_char}
use planmaker.Persian.Digits.{to_en_digits-to_fa_digits}
use planmaker.Jalali.{
  Jalali, Library, zeros, padded, short, slashes, date_parts, checked_parts, parse,
}

-- A written date: digits and slashes.
abbrev is_plain : ℕ → Bool
is_plain c = is_digit c || c == 47

zeros-digits : (n : ℕ) (t : Text) → all is_digit t ≡ true → all is_digit (zeros n ++ t) ≡ true
zeros-digits zero t h = h
zeros-digits (suc n) t h = ground (arith, zeros-digits n t h)

padded-digits : (width n : ℕ) → all is_digit (padded width n) ≡ true
unfolding padded
padded-digits width n = zeros-digits (width - length (decimal n)) (decimal n) (decimal-digits n)

zeros-nonempty : (n : ℕ) (t : Text) → is_empty t ≡ false → is_empty (zeros n ++ t) ≡ false
zeros-nonempty zero t h = h
zeros-nonempty (suc n) t h = refl

padded-nonempty : (width n : ℕ) → is_empty (padded width n) ≡ false
unfolding padded
padded-nonempty width n =
    zeros-nonempty (width - length (decimal n)) (decimal n) (decimal-nonempty n)

zeros-value : (n : ℕ) (t : Text) → digits_value 0 (zeros n ++ t) ≡ digits_value 0 t
zeros-value zero t = refl
zeros-value (suc n) t = zeros-value n t

padded-value : (width n : ℕ) → digits_value 0 (padded width n) ≡ n
unfolding padded
padded-value width n = zeros-value (width - length (decimal n)) (decimal n) ∙ digits_value-decimal n

-- Texts that `strip` and the replacements leave alone.
drop_space-none : (t : Text) → all (λ c. not (is_space c)) t ≡ true → drop_space t ≡ t
unfolding drop_space
drop_space-none [] h = refl
drop_space-none (c ∷ t) h = ground (arith, h)

all-map : (f : ℕ → ℕ) (p : ℕ → Bool) (t : Text) → all p (map f t) ≡ all (λ c. p (f c)) t
all-map f p [] = refl
all-map f p (c ∷ t) = ap (λ r. p (f c) && r) (all-map f p t)

and_comm : (a b : Bool) → (b && (a && true)) ≡ (a && b)
and_comm a b = ground arith

all-reverse : (p : ℕ → Bool) (t : Text) → all p (reverse t) ≡ all p t
all-reverse p [] = refl
all-reverse p (c ∷ t) =
    rw (reverse-cons c t)
      (all-append p (reverse t) (c ∷ []) ∙ rw (all-reverse p t) (and_comm (p c) (all p t)))

strip-none : (t : Text) → all (λ c. not (is_space c)) t ≡ true → strip t ≡ t
unfolding strip
strip-none t h = rw (drop_space-none t h) (
    rw (drop_space-none (reverse t) (all-reverse (λ c. not (is_space c)) t ∙ h))
      (reverse-reverse t))

replace_char-none :
    (old new : ℕ) (t : Text) → all (λ c. not (c == old)) t ≡ true → replace_char old new t ≡ t
unfolding replace_char
replace_char-none old new [] h = refl
replace_char-none old new (c ∷ t) h = ground (arith, h, replace_char-none old new t)

to_en_digits-plain : (t : Text) → all is_plain t ≡ true → to_en_digits t ≡ t
to_en_digits-plain [] h = refl
to_en_digits-plain (c ∷ t) h = ground (arith, h, to_en_digits-plain t)

fa_char-spaceless : (c : ℕ) → is_plain c ≡ true → not (is_space (fa_char c)) ≡ true
unfolding is_space
fa_char-spaceless c h = ground (arith, h)

slashes-plain : (t : Text) → all is_plain t ≡ true → slashes t ≡ t
slashes-plain t h =
    rw
      (replace_char-none 45 47 t
        (all-imp is_plain (λ c. not (c == 45)) t (λ c k. ground (arith, k)) h))
      (rw
        (replace_char-none 46 47 t
          (all-imp is_plain (λ c. not (c == 46)) t (λ c k. ground (arith, k)) h))
        (replace_char-none 32 47 t
          (all-imp is_plain (λ c. not (c == 32)) t (λ c k. ground (arith, k)) h)))

-- The text in Latin digits that is written.
abbrev plain_text : Text → Text → Text → Text
plain_text y m d = join (codes "/") (y ∷ m ∷ d ∷ [])

-- Digits, at least one.
abbrev pub IsNumber : Text → Type 0
IsNumber t = (is_empty t ≡ false) × (all is_digit t ≡ true)

digits-plain : (t : Text) → all is_digit t ≡ true → all is_plain t ≡ true
digits-plain t h = all-imp is_digit is_plain t (λ c k. ground (arith, k)) h

digits-Lacks : (t : Text) → all is_digit t ≡ true → Lacks 47 t
digits-Lacks t h = all-imp is_digit (λ c. not (c == 47)) t (λ c k. ground (arith, k)) h

join-plain :
    (s t : Text) → all is_plain s ≡ true → all is_plain t ≡ true → all is_plain (s ++ 47 ∷ t) ≡ true
join-plain s t h k = ground (arith, all-append is_plain s (47 ∷ t), h, k)

plain_text-plain :
    (y m d : Text) → IsNumber y → IsNumber m → IsNumber d → all is_plain (plain_text y m d) ≡ true
unfolding join
plain_text-plain y m d hy hm hd =
    join-plain y (m ++ 47 ∷ d) (digits-plain y hy.1)
      (join-plain m d (digits-plain m hm.1) (digits-plain d hd.1))

strip-fa : (t : Text) → all is_plain t ≡ true → strip (to_fa_digits t) ≡ to_fa_digits t
strip-fa t h = strip-none (to_fa_digits t) (
    all-map fa_char (λ c. not (is_space c)) t
    ∙ all-imp is_plain (λ c. not (is_space (fa_char c))) t fa_char-spaceless h)

select-three :
    (y m d : Text)
    → IsNumber y
    → IsNumber m
    → IsNumber d
    → select (λ p. not (is_empty p)) (y ∷ m ∷ d ∷ []) ≡ y ∷ m ∷ d ∷ []
select-three y m d hy hm hd = rw (hy.0, hm.0, hd.0) refl

date_parts-fa :
    (y m d : Text)
    → IsNumber y
    → IsNumber m
    → IsNumber d
    → date_parts (to_fa_digits (plain_text y m d)) ≡ y ∷ m ∷ d ∷ []
date_parts-fa y m d hy hm hd =
    let t = plain_text y m d in
    let plain = plain_text-plain y m d hy hm hd in
    ap (λ s. select (λ p. not (is_empty p)) (split_on 47 (slashes (to_en_digits s))))
      (strip-fa t plain)
    ∙ ap (λ s. select (λ p. not (is_empty p)) (split_on 47 (slashes s)))
        (to_en_digits-to_fa_digits t ∙ to_en_digits-plain t plain)
    ∙ ap (λ s. select (λ p. not (is_empty p)) (split_on 47 s)) (slashes-plain t plain)
    ∙ ap (select (λ p. not (is_empty p))) (
        split_on-join 47 y (m ∷ d ∷ [])
          (digits-Lacks y hy.1, (digits-Lacks m hm.1, (digits-Lacks d hd.1, tt))))
    ∙ select-three y m d hy hm hd

padded-IsNumber : (width n : ℕ) → IsNumber (padded width n)
padded-IsNumber width n = (padded-nonempty width n, padded-digits width n)

-- What Python says of texts of Latin digits.
abbrev pub ReadsDigits : Library → Type 0
ReadsDigits lib =
    (t : Text) → IsNumber t → (lib.isdigit t ≡ true) × (lib.int t ≡ some (digits_value 0 t))

-- jdatetime converts this date, and converts the result back.
abbrev pub IsConverted : Library → Date → Jalali → Type 0
IsConverted lib value j =
    (lib.to_jalali value ≡ some j) × (lib.from_jalali j.year j.month j.day ≡ some value)

checked_parts-padded :
    (lib : Library) (j : Jalali) (value : Date)
    → ReadsDigits lib
    → lib.from_jalali j.year j.month j.day ≡ some value
    → checked_parts lib (padded 4 j.year ∷ padded 2 j.month ∷ padded 2 j.day ∷ []) ≡ ok value
checked_parts-padded lib j value reads inverse =
    let (dy, iy) = reads (padded 4 j.year) (padded-IsNumber 4 j.year) in
    let (dm, im) = reads (padded 2 j.month) (padded-IsNumber 2 j.month) in
    let (dd, id) = reads (padded 2 j.day) (padded-IsNumber 2 j.day) in
    rw (dy, dm, dd, iy, im, id)
      (rw (padded-value 4 j.year, padded-value 2 j.month, padded-value 2 j.day, inverse) refl)

-- A date that `short` writes in Persian digits is read by `parse` as that date, if jdatetime
-- converts the date and converts the result back.
pub parse-short :
    (lib : Library) (value : Date) (j : Jalali)
    → ReadsDigits lib
    → IsConverted lib value j
    → (short lib value >>= parse lib) ≡ ok value
unfolding parse short join
parse-short lib value j reads (converts, inverse) = rw converts (
    ap (checked_parts lib) (
      date_parts-fa (padded 4 j.year) (padded 2 j.month) (padded 2 j.day) (padded-IsNumber 4 j.year)
        (padded-IsNumber 2 j.month) (padded-IsNumber 2 j.day))
    ∙ checked_parts-padded lib j value reads inverse)
