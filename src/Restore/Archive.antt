-- ===== src/Restore/Archive.antt =====
-- app/services/restore.py: `_member_map`, `_parse_checksums` and the check of the members'
-- checksums in `_inspect_sync`.
pub mod Checked
use planmaker.Common.{
  ℕ, zero, suc, ◌+◌, Bool, true, false, not, ◌&&◌, ◌||◌, Option, none, some, List, [], ◌∷◌, ◌++◌,
  ltb, ◌==◌, if◌then◌else◌, any, drop, length, is_some, ◌↔◌, ◌≡◌,
}
use planmaker.Common.Dict.{Key, lookup, insert}
use planmaker.Common.Result.{Result, ok, err, restore_error, ◌>>=◌}
use planmaker.Common.Text.{
  partition, Text, codes, is_empty, text_eq, eq_of_text_eq, text_eq_refl, strip, join, starts_with,
}

unfoldable pub text_key : Key Text
text_key = record {
  beq = text_eq;
  beq_iff = λ a b. (eq_of_text_eq a b, λ e. rw e (text_eq_refl b));
}

abbrev pub Bytes : Type 0
Bytes = List ℕ

-- What the code takes from libraries: hashlib, `bytes.decode`, `str.splitlines`, `str.lower` and
-- `Path(name).parts`.
pub record Library : Type 0 where
  pub sha256 : Bytes → Text
  pub decode : Bytes → Text
  pub splitlines : Text → List Text
  pub lower : Text → Text
  pub parts : Text → List Text

-- A member of an opened tar file.
pub record Member : Type 0 where
  pub name : Text
  pub is_file : Bool
  pub content : Bytes

-- The short name of a member, without the archive's folder, and the member.
abbrev pub Members : Type 0
Members = List (Text × Bytes)

abbrev has_folder : List Text → Bool
has_folder (a ∷ b ∷ rest) = true
has_folder _ = false

-- `_member_map`, with the content that `_read_member` reads in place of the full name.
unfoldable pub member_map : Library → Members → List Member → Members
member_map lib out [] = out
member_map lib out (info ∷ infos) =
    let parts = lib.parts info.name in
    let taken =
      member_map lib (insert text_key (join (codes "/") (drop 1 parts)) info.content out) infos in
    let skipped = member_map lib out infos in
    if info.is_file && has_folder parts then taken else skipped

unfoldable pub lstrip_stars : Text → Text
lstrip_stars [] = []
lstrip_stars (c ∷ t) = if c == 42 then lstrip_stars t else c ∷ t

-- One stripped line of the checksums.
unfoldable pub split_line : Text → Text × Text
unfolding partition
split_line line =
    let (digest, name) = partition (codes "  ") line in
    if is_empty name then partition (codes " ") line else (digest, name)

abbrev add_line : Library → List (Text × Text) → Text × Text → List (Text × Text)
add_line lib out (digest, name) =
    if not (is_empty digest) && not (is_empty name)
    then insert text_key (lstrip_stars (strip name)) (lib.lower (strip digest)) out
    else out

unfoldable pub parse_lines : Library → List (Text × Text) → List Text → List (Text × Text)
unfolding split_line strip lstrip_stars
parse_lines lib out [] = out
parse_lines lib out (line ∷ lines) =
    let bare = strip line in
    let added = parse_lines lib (add_line lib out (split_line bare)) lines in
    let skipped = parse_lines lib out lines in
    if is_empty bare || starts_with (codes "#") bare then skipped else added

unfoldable pub parse_checksums : Library → Bytes → List (Text × Text)
unfolding parse_lines
parse_checksums lib raw = parse_lines lib [] (lib.splitlines (lib.decode raw))

pub data Warning : Type 0 where
  no_checksums nothing_verified no_users : Warning
  missing_member wrong_checksum other_revision : Text → Warning
  no_safety_backup no_migration : Warning

-- DERIVED_MEMBERS of app/services/backup.py
abbrev pub is_derived : Text → Bool
is_derived name =
    text_eq name (codes "README.txt")
    || text_eq name (codes "metadata.json")
    || text_eq name (codes "checksums.txt")

-- What the check of one listed member finds.
pub data Finding : Type 0 where
  derived verified : Finding
  missing wrong : Finding

abbrev pub check_content : Library → Text → Option Bytes → Finding
check_content lib digest none = missing
check_content lib digest (some raw) =
    if text_eq (lib.sha256 raw) (lib.lower digest) then verified else wrong

abbrev pub check_member : Library → Members → Text × Text → Finding
check_member lib members (name, digest) =
    if is_derived name then derived else check_content lib digest (lookup text_key name members)

-- `sorted(checksums.items())`, by the names, which differ.
abbrev pub text_lt : Text → Text → Bool
text_lt [] [] = false
text_lt [] (b ∷ t) = true
text_lt (a ∷ s) [] = false
text_lt (a ∷ s) (b ∷ t) = ltb a b || (a == b && text_lt s t)

unfoldable pub insert_name : {V : Type 0} → Text × V → List (Text × V) → List (Text × V)
insert_name a [] = a ∷ []
insert_name a (b ∷ bs) =
    let rest = insert_name a bs in if text_lt b.0 a.0 then b ∷ rest else a ∷ b ∷ bs

unfoldable pub sort_names : {V : Type 0} → List (Text × V) → List (Text × V)
unfolding insert_name
sort_names [] = []
sort_names (a ∷ rest) = insert_name a (sort_names rest)

-- The warnings and the number of verified members so far.
abbrev pub Checks : Type 0
Checks = List Warning × ℕ

abbrev pub after_finding : Bool → Text → Finding → Checks → Result Checks
after_finding strict name derived checks = ok checks
after_finding strict name verified (warnings, n) = ok (warnings, n + 1)
after_finding strict name missing (warnings, n) = ok (warnings ++ missing_member name ∷ [], n)
after_finding strict name wrong (warnings, n) =
    if strict then err restore_error else ok (warnings ++ wrong_checksum name ∷ [], n)

-- The loop over the listed members.
unfoldable pub check_members :
    Library → Bool → Members → List (Text × Text) → Checks → Result Checks
check_members lib strict members [] checks = ok checks
check_members lib strict members (entry ∷ entries) checks = do
  more ← after_finding strict entry.0 (check_member lib members entry) checks
  check_members lib strict members entries more

abbrev pub summed : Result Checks → Result (List Warning)
summed (err e) = err e
summed (ok (warnings, zero)) = ok (warnings ++ nothing_verified ∷ [])
summed (ok (warnings, suc n)) = ok warnings

-- The warnings about checksums; a strict check raises at the first wrong one.
abbrev pub check_listed : Library → Bool → Members → List (Text × Text) → Result (List Warning)
check_listed lib strict members [] = ok (no_checksums ∷ [])
check_listed lib strict members (entry ∷ entries) =
    summed (check_members lib strict members (sort_names (entry ∷ entries)) ([], 0))

abbrev pub checksums_of : Library → Option Bytes → List (Text × Text)
checksums_of lib none = []
checksums_of lib (some raw) = parse_checksums lib raw

unfoldable pub check_archive : Library → Bool → Members → Result (List Warning)
unfolding check_members sort_names parse_checksums
check_archive lib strict members =
    check_listed lib strict members
      (checksums_of lib (lookup text_key (codes "checksums.txt") members))
