-- ===== src/Backup/Literal/Reader.antt =====
-- How PostgreSQL reads the literals of a dump, as its documentation states it: a plain string ends
-- at a quote that is not doubled, an escape string also has backslash escapes. Octal, hexadecimal
-- and Unicode escapes are not read here.
use planmaker.Common.{ℕ, ◌||◌, ◌&&◌, leb, Option, none, some, [], ◌∷◌, ◌==◌, if◌then◌else◌}
use planmaker.Common.Text.{Text}

-- The string that was read, and the text after it.
abbrev pub Read : Type 0
Read = Option (Text × Text)

abbrev pub prepend : ℕ → Read → Read
prepend c none = none
prepend c (some (s, rest)) = some (c ∷ s, rest)

-- After the opening quote of a plain string.
abbrev pub read_plain : Text → Read
read_plain [] = none
read_plain (c ∷ []) = if c == 39 then some ([], []) else none
read_plain (c ∷ d ∷ t) =
    let after = read_plain t in
    let next = read_plain (d ∷ t) in
    if c == 39 then (if d == 39 then prepend 39 after else some ([], d ∷ t)) else prepend c next

-- The character that a backslash and `c` stand for.
abbrev pub unescape : ℕ → Option ℕ
unescape c =
    if c == 110
    then some 10
    else if c == 114
    then some 13
    else if c == 116
    then some 9
    else if c == 98
    then some 8
    else if c == 102
    then some 12
    else if (c == 120) || (c == 117) || (c == 85) || (leb 48 c && leb c 55)
    then none
    else some c

abbrev pub prepend_escape : Option ℕ → Read → Read
prepend_escape none r = none
prepend_escape (some c) r = prepend c r

-- After the opening quote of an escape string.
abbrev pub read_escaped : Text → Read
read_escaped [] = none
read_escaped (c ∷ []) = if c == 39 then some ([], []) else none
read_escaped (c ∷ d ∷ t) =
    let after = read_escaped t in
    let next = read_escaped (d ∷ t) in
    if c == 92
    then prepend_escape (unescape d) after
    else if c == 39
    then (if d == 39 then prepend 39 after else some ([], d ∷ t))
    else prepend c next

-- A string literal at the start of a statement's rest.
unfoldable pub read_string : Text → Read
read_string [] = none
read_string (c ∷ []) = none
read_string (c ∷ d ∷ t) =
    if c == 39 then read_plain (d ∷ t) else if (c == 69) && (d == 39) then read_escaped t else none
