-- ===== src/Common/Text.antt =====
-- Python's texts as lists of code points, and the `str` methods that the program uses.
pub mod Decimal
pub mod Split
use Prim.Native.Nat.{ℕ, zero, suc, ◌+◌, ◌-◌, ◌/◌, ◌%◌}
use Prim.Native.Char.{code}
use Prim.Native.String.{String}
use mathlib.Core.Path.{◌≡◌, refl}
use mathlib.Core.Bool.{Bool, true, false, ◌&&◌, ◌||◌}
use mathlib.Core.List.{List, [], ◌∷◌, ◌++◌, reverse}
use native.Mathlib.Omega.{arith}
use planmaker.Common.Lists.{length, drop}
use planmaker.Common.Tests.{leb, ltb, ◌==◌, if◌then◌else◌}

abbrev pub Text : Type 0
Text = List ℕ

abbrev pub codes : String → Text
codes String.[] = []
codes (String.◌∷◌ c s) = code c ∷ codes s

-- `str.isspace` of one character: where `split()` and `strip()` cut.
unfoldable pub is_space : ℕ → Bool
is_space c =
    (leb 9 c && leb c 13)
    || (leb 28 c && leb c 32)
    || (c == 133)
    || (c == 160)
    || (c == 5760)
    || (leb 8192 c && leb c 8202)
    || (c == 8232)
    || (c == 8233)
    || (c == 8239)
    || (c == 8287)
    || (c == 12288)

abbrev pub is_empty {ℓ} : {A : Type ℓ} → List A → Bool
is_empty [] = true
is_empty (c ∷ t) = false

abbrev pub text_eq : Text → Text → Bool
text_eq [] [] = true
text_eq [] (b ∷ t) = false
text_eq (a ∷ s) [] = false
text_eq (a ∷ s) (b ∷ t) = a == b && text_eq s t

pub text_eq_refl : (s : Text) → text_eq s s ≡ true
text_eq_refl [] = refl
text_eq_refl (a ∷ s) = ground (arith, text_eq_refl s)

pub eq_of_text_eq : (s t : Text) → text_eq s t ≡ true → s ≡ t
eq_of_text_eq [] [] h = refl
eq_of_text_eq [] (b ∷ t) h = ground arith
eq_of_text_eq (a ∷ s) [] h = ground arith
eq_of_text_eq (a ∷ s) (b ∷ t) h = ground (arith, eq_of_text_eq s t)

unfoldable pub drop_space : Text → Text
drop_space [] = []
drop_space (c ∷ t) = if is_space c then drop_space t else c ∷ t

-- `t.strip()`
unfoldable pub strip : Text → Text
unfolding drop_space
strip t = reverse (drop_space (reverse (drop_space t)))

abbrev flush : Text → List Text → List Text
flush [] ws = ws
flush (c ∷ w) ws = (c ∷ w) ∷ ws

split_from : Text → Text → List Text
split_from word [] = flush word []
split_from word (c ∷ t) =
    let rest = split_from (if is_space c then [] else word ++ c ∷ []) t in
    if is_space c then flush word rest else rest

-- `t.split()`: the words between runs of white space.
unfoldable pub split : Text → List Text
unfolding split_from is_space
split t = split_from [] t

abbrev extend_head : ℕ → List Text → List Text
extend_head c [] = (c ∷ []) ∷ []
extend_head c (w ∷ ws) = (c ∷ w) ∷ ws

-- `t.split(sep)` for a separator of one character: empty parts are kept.
unfoldable pub split_on : ℕ → Text → List Text
split_on sep [] = [] ∷ []
split_on sep (c ∷ t) =
    let rest = split_on sep t in if c == sep then [] ∷ rest else extend_head c rest

-- `sep.join(parts)`
unfoldable pub join : Text → List Text → Text
join sep [] = []
join sep (w ∷ []) = w
join sep (w ∷ v ∷ ws) = w ++ (sep ++ join sep (v ∷ ws))

-- `t.replace(old, new)` for two single characters.
unfoldable pub replace_char : ℕ → ℕ → Text → Text
replace_char old new [] = []
replace_char old new (c ∷ t) = (if c == old then new else c) ∷ replace_char old new t

-- `str(n)` of a number: its decimal digits. Each round removes one digit, and a number has no more
-- digits than its own value, or one.
unfoldable pub decimal_from : ℕ → ℕ → Text → Text
decimal_from zero n out = out
decimal_from (suc fuel) n out =
    let more = decimal_from fuel (n / 10) ((48 + n % 10) ∷ out) in
    if ltb n 10 then (48 + n) ∷ out else more

unfoldable pub decimal : ℕ → Text
unfolding decimal_from
decimal n = decimal_from (n + 1) n []

-- `t.startswith(p)`
abbrev pub starts_with : Text → Text → Bool
starts_with [] t = true
starts_with (a ∷ p) [] = false
starts_with (a ∷ p) (b ∷ t) = a == b && starts_with p t

-- `p in t`
abbrev pub contains : Text → Text → Bool
contains p [] = is_empty p
contains p (b ∷ t) = starts_with p (b ∷ t) || contains p t

-- `t.replace(old, new)` for texts: `left` characters of an occurrence are still to be dropped.
abbrev replace_from : ℕ → Text → Text → Text → Text
replace_from left old new [] = []
replace_from (suc left) old new (c ∷ t) = replace_from left old new t
replace_from zero old new (c ∷ t) =
    let next = replace_from zero old new t in
    let after = replace_from (length old - 1) old new t in
    if starts_with old (c ∷ t) then new ++ after else c ∷ next

unfoldable pub replace_text : Text → Text → Text → Text
replace_text old new t = replace_from 0 old new t

-- `t.partition(sep)`: the texts before and after, or all of it and nothing.
unfoldable pub partition : Text → Text → Text × Text
partition sep [] = ([], [])
partition sep (c ∷ t) =
    let (before, after) = partition sep t in
    if starts_with sep (c ∷ t) then ([], drop (length sep) (c ∷ t)) else (c ∷ before, after)
