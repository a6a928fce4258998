-- ===== src/Restore/Archive/Checked.antt =====
-- app/services/restore.py, `_inspect_sync`: what a strict check of an archive guarantees.
use planmaker.Common.{
  zero, suc, ◌+◌, ◌≡◌, refl, ap, ◌∙◌, ◌↔◌, ◌≢◌, ◌⊎◌, inl, inr, Bool, true, false, Option, none,
  some, List, [], ◌∷◌, if◌then◌else◌, All, Bool-cases, arith,
}
use planmaker.Common.Dict.{lookup}
use planmaker.Common.Result.{Result, ok, err, >>=-eq_ok}
use planmaker.Common.Text.{Text, codes, text_eq, eq_of_text_eq, text_eq_refl}
use planmaker.Restore.Archive.{
  Library, Members, Warning, Bytes, text_key, Checks, derived, check_content, check_member,
  after_finding, check_members, check_listed, check_archive, checksums_of, sort_names, insert_name,
  is_derived, summed, text_lt,
}

-- A listed member that is in the archive has the listed digest, unless it is derived.
abbrev pub IsChecked : Library → Members → Text × Text → Type 0
IsChecked lib members (name, digest) =
    (is_derived name ≡ true)
    ⊎ (lookup text_key name members ≡ none)
    ⊎ ((content : Bytes) × (lookup text_key name members ≡ some content)
        × (lib.sha256 content ≡ lib.lower digest))

wrong_raises :
    (lib : Library) (name digest : Text) (content : Bytes) (checks more : Checks)
    → text_eq (lib.sha256 content) (lib.lower digest) ≡ false
    → after_finding true name (check_content lib digest (some content)) checks ≢ ok more
wrong_raises lib name digest content checks more differs passed = ground (arith, differs, passed)

content-cases :
    (lib : Library) (name digest : Text) (is_free : Bool) (o : Option Bytes) (checks more : Checks)
    → after_finding true name (if is_free then derived else check_content lib digest o) checks
      ≡ ok more
    → (is_free ≡ true)
      ⊎ (o ≡ none)
      ⊎ ((content : Bytes) × (o ≡ some content) × (lib.sha256 content ≡ lib.lower digest))
content-cases lib name digest true o checks more passed = inl refl
content-cases lib name digest false none checks more passed = inr (inl refl)
content-cases lib name digest false (some content) checks more passed =
    elim (Bool-cases (text_eq (lib.sha256 content) (lib.lower digest))) [
      | inl same ↦ inr (inr (content, refl, eq_of_text_eq _ _ same))
      | inr differs ↦ absurd (wrong_raises lib name digest content checks more differs passed)
    ]

check_member-IsChecked :
    (lib : Library) (members : Members) (entry : Text × Text) (checks more : Checks)
    → after_finding true entry.0 (check_member lib members entry) checks ≡ ok more
    → IsChecked lib members entry
check_member-IsChecked lib members (name, digest) checks more passed =
    content-cases lib name digest (is_derived name) (lookup text_key name members) checks more
      passed

check_members-IsChecked :
    (lib : Library) (members : Members) (entries : List (Text × Text)) (checks last : Checks)
    → check_members lib true members entries checks ≡ ok last
    → All (IsChecked lib members) entries
unfolding check_members
check_members-IsChecked lib members [] checks last passed = tt
check_members-IsChecked lib members (entry ∷ entries) checks last passed =
    let (more, first, rest) =
      >>=-eq_ok (after_finding true entry.0 (check_member lib members entry) checks) _ passed in
    (
      check_member-IsChecked lib members entry checks more first,
      check_members-IsChecked lib members entries more last rest,
    )

same_content :
    (lib : Library) (name digest : Text) (content : Bytes) (checks : Checks)
    → lib.sha256 content ≡ lib.lower digest
    → after_finding true name (check_content lib digest (some content)) checks
      ≡ ok (checks.0, checks.1 + 1)
same_content lib name digest content checks same =
    rw same (rw (text_eq_refl (lib.lower digest)) refl)

-- A checked member does not raise.
finding-returns :
    (lib : Library) (name digest : Text) (is_free : Bool) (o : Option Bytes) (checks : Checks)
    → (is_free ≡ true)
      ⊎ (o ≡ none)
      ⊎ ((content : Bytes) × (o ≡ some content) × (lib.sha256 content ≡ lib.lower digest))
    → (more : Checks) × (after_finding true name
          (if is_free then derived else check_content lib digest o)
          checks
        ≡ ok more)
finding-returns lib name digest true o checks h = (checks, refl)
finding-returns lib name digest false none checks h = (_, refl)
finding-returns lib name digest false (some content) checks (inl e) = cc
finding-returns lib name digest false (some content) checks (inr (inl e)) = cc
finding-returns lib name digest false (some content) checks (inr (inr (found, e, same))) =
    let unchanged : content ≡ found = cc in
    (
      (checks.0, checks.1 + 1),
      same_content lib name digest content checks (ap lib.sha256 unchanged ∙ same),
    )

check_members-returns :
    (lib : Library) (members : Members) (entries : List (Text × Text)) (checks : Checks)
    → All (IsChecked lib members) entries
    → (last : Checks) × (check_members lib true members entries checks ≡ ok last)
unfolding check_members
check_members-returns lib members [] checks h = (checks, refl)
check_members-returns lib members ((name, digest) ∷ entries) checks h =
    let (more, first) =
      finding-returns lib name digest (is_derived name) (lookup text_key name members) checks h.0 in
    let (last, rest) = check_members-returns lib members entries more h.1 in (last, rw first rest)

All-insert_name :
    {V : Type 0} (P : Text × V → Type 0) (a : Text × V) (bs : List (Text × V))
    → All P (insert_name a bs) ↔ (P a × All P bs)
unfolding insert_name
All-insert_name P a [] = (λ h. h, λ h. h)
All-insert_name P a (b ∷ bs) = elim (Bool-cases (text_lt b.0 a.0)) [
  | inl below ↦ rw below (
    λ h. (((All-insert_name P a bs).0 h.1).0, (h.0, ((All-insert_name P a bs).0 h.1).1)),
    λ h. (h.1.0, (All-insert_name P a bs).1 (h.0, h.1.1)),
  )
  | inr above ↦ rw above (λ h. h, λ h. h)
]

pub All-sort_names :
    {V : Type 0} (P : Text × V → Type 0) (bs : List (Text × V)) → All P (sort_names bs) ↔ All P bs
unfolding sort_names
All-sort_names P [] = (λ h. h, λ h. h)
All-sort_names P (b ∷ bs) = (
  λ h.
      let (k, rest) = (All-insert_name P b (sort_names bs)).0 h in
      (k, (All-sort_names P bs).0 rest),
  λ h. (All-insert_name P b (sort_names bs)).1 (h.0, (All-sort_names P bs).1 h.1),
)

-- The members that the archive's checksums.txt lists, with their digests.
abbrev pub listed : Library → Members → List (Text × Text)
listed lib members = checksums_of lib (lookup text_key (codes "checksums.txt") members)

summed-ok :
    (r : Result Checks) (warnings : List Warning)
    → summed r ≡ ok warnings
    → (checks : Checks) × (r ≡ ok checks)
summed-ok (err e) warnings h = cc
summed-ok (ok checks) warnings h = (checks, refl)

summed-returns : (checks : Checks) → (warnings : List Warning) × (summed (ok checks) ≡ ok warnings)
summed-returns (warnings, zero) = (_, refl)
summed-returns (warnings, suc n) = (_, refl)

check_listed_iff :
    (lib : Library) (members : Members) (entries : List (Text × Text))
    → ((warnings : List Warning) × (check_listed lib true members entries ≡ ok warnings))
      ↔ All (IsChecked lib members) entries
check_listed_iff lib members [] = (λ h. tt, λ h. (_, refl))
check_listed_iff lib members (entry ∷ entries) =
    let sorted = sort_names (entry ∷ entries) in
    let P = IsChecked lib members in
    (
      λ (warnings, passed).
          let (checks, found) =
            summed-ok (check_members lib true members sorted ([], 0)) warnings passed in
          (All-sort_names P (entry ∷ entries)).0
            (check_members-IsChecked lib members sorted ([], 0) checks found),
      λ h.
          let (checks, found) =
            check_members-returns lib members sorted ([], 0)
              ((All-sort_names P (entry ∷ entries)).1 h) in
          let (warnings, last) = summed-returns checks in (warnings, ap summed found ∙ last),
    )

pub check_archive-strict_iff :
    (lib : Library) (members : Members)
    → ((warnings : List Warning) × (check_archive lib true members ≡ ok warnings))
      ↔ All (IsChecked lib members) (listed lib members)
unfolding check_archive
check_archive-strict_iff lib members = check_listed_iff lib members (listed lib members)
