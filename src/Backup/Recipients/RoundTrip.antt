-- ===== src/Backup/Recipients/RoundTrip.antt =====
-- app/db/models.py and app/services/backup.py: the recipients that are stored, read back.
use planmaker.Common.{
  ℕ, suc, ◌+◌, ◌≡◌, refl, ap, ◌∙◌, Bool, true, false, not, ◌||◌, List, [], ◌∷◌, map, ◌==◌, all, any,
  if◌then◌else◌, sym, ◌++◌, false, Bool-cases, inl, inr, all-imp, all-append, All, select, arith,
}
use mathlib.Core.List.{append_assoc, append-nil}
use planmaker.Common.Int.{ℤ, pos, negsuc}
use planmaker.Common.Result.{ok}
use planmaker.Common.Text.{Text, decimal, is_empty, join, split_on}
use planmaker.Common.Text.Decimal.{
  is_digit, digits_value, digits_value-decimal, decimal-digits, decimal-nonempty,
}
use planmaker.Common.Text.Split.{Lacks, split_on-join}
use planmaker.Backup.Literal.{int_text}
use planmaker.Backup.Row.{BackupDefaults, BotSettings, join_ids, or_none}
use planmaker.Backup.Recipients.{
  int_eq, is_number, lstrip_minus, parse_int, negated, minus, add_id, read_ids, or_ids, or_empty,
  recipient_list,
}

select-all : (p : ℕ → Bool) (t : Text) → all p t ≡ true → select p t ≡ t
select-all p [] h = refl
select-all p (c ∷ t) h = ground (arith, h, select-all p t)

-- A character of `str` of an integer.
abbrev is_plain : ℕ → Bool
is_plain c = is_digit c || c == minus

int_text-plain : (n : ℤ) → all is_plain (int_text n) ≡ true
unfolding int_text
int_text-plain (pos n) =
    all-imp is_digit is_plain (decimal n) (λ c h. ground (arith, h)) (decimal-digits n)
int_text-plain (negsuc n) = ground (
  arith,
  all-imp is_digit is_plain (decimal (n + 1)) (λ c h. ground (arith, h)) (decimal-digits (n + 1)),
)

suc_eq : (n : ℕ) → n + 1 ≡ suc n
suc_eq n = omega arith

-- Digits, alone and after a minus.
parse_int-digits :
    (t : Text)
    → is_empty t ≡ false
    → all is_digit t ≡ true
    → (parse_int t ≡ ok (pos (digits_value 0 t)))
      × (parse_int (minus ∷ t) ≡ ok (negated (digits_value 0 t)))
      × (is_number (lstrip_minus t) ≡ true)
unfolding lstrip_minus
parse_int-digits [] h k = cc
parse_int-digits (c ∷ t) h k = (ground (arith, k), ground (arith, k), ground (arith, k))

-- `int(str(n))`, and the test before it.
parse_int-int_text :
    (n : ℤ) → (parse_int (int_text n) ≡ ok n) × (is_number (lstrip_minus (int_text n)) ≡ true)
unfolding int_text lstrip_minus
parse_int-int_text (pos n) =
    let (plain, signed, number) =
      parse_int-digits (decimal n) (decimal-nonempty n) (decimal-digits n) in
    (plain ∙ ap (λ m. ok (pos m)) (digits_value-decimal n), number)
parse_int-int_text (negsuc n) =
    let (plain, signed, number) =
      parse_int-digits (decimal (n + 1)) (decimal-nonempty (n + 1)) (decimal-digits (n + 1)) in
    (signed ∙ ap (λ m. ok (negated m)) (digits_value-decimal (n + 1) ∙ suc_eq n), number)

-- The identifiers without repetitions, after those of the first list.
abbrev pub distinct : List ℤ → List ℤ → List ℤ
distinct ids [] = ids
distinct ids (n ∷ ns) = distinct (add_id ids n) ns

read_ids-int_text : (ids ns : List ℤ) → read_ids ids (map int_text ns) ≡ ok (distinct ids ns)
unfolding read_ids
read_ids-int_text ids [] = refl
read_ids-int_text ids (n ∷ ns) =
    rw (parse_int-int_text n).1 (rw (parse_int-int_text n).0 (read_ids-int_text (add_id ids n) ns))

int_text-Lacks : (n : ℤ) → Lacks 44 (int_text n)
int_text-Lacks n =
    all-imp is_plain (λ c. not (c == 44)) (int_text n) (λ c h. ground (arith, h)) (int_text-plain n)

Lacks-all : (ns : List ℤ) → All (Lacks 44) (map int_text ns)
Lacks-all [] = tt
Lacks-all (n ∷ ns) = (int_text-Lacks n, Lacks-all ns)

int_text-spaceless : (n : ℤ) → all (λ c. not (c == 32)) (int_text n) ≡ true
int_text-spaceless n =
    all-imp is_plain (λ c. not (c == 32)) (int_text n) (λ c h. ground (arith, h)) (int_text-plain n)

join_ids-spaceless : (ns : List ℤ) → all (λ c. not (c == 32)) (join_ids ns) ≡ true
unfolding join_ids join
join_ids-spaceless [] = refl
join_ids-spaceless (n ∷ []) = int_text-spaceless n
join_ids-spaceless (n ∷ m ∷ ns) = ground (
  arith,
  all-append (λ c. not (c == 32)) (int_text n) (44 ∷ join_ids (m ∷ ns)),
  int_text-spaceless n,
  join_ids-spaceless (m ∷ ns),
)

or_empty-or_none : (t : Text) → or_empty (or_none t) ≡ t
or_empty-or_none [] = refl
or_empty-or_none (c ∷ t) = refl

-- The chunks of the stored column.
read_ids-join_ids :
    (ns : List ℤ)
    → read_ids [] (split_on 44 (select (λ c. not (c == 32)) (join_ids ns))) ≡ ok (distinct [] ns)
unfolding join_ids join split_on read_ids lstrip_minus
read_ids-join_ids [] = refl
read_ids-join_ids (n ∷ ns) =
    rw (select-all (λ c. not (c == 32)) (join_ids (n ∷ ns)) (join_ids-spaceless (n ∷ ns))) (
      ap (read_ids []) (split_on-join 44 (int_text n) (map int_text ns) (Lacks-all (n ∷ ns)))
      ∙ read_ids-int_text [] (n ∷ ns))

int_eq_refl : (n : ℤ) → int_eq n n ≡ true
int_eq_refl (pos n) = ground arith
int_eq_refl (negsuc n) = ground arith

eq_of_int_eq : (m n : ℤ) → int_eq m n ≡ true → m ≡ n
eq_of_int_eq (pos m) (pos n) h = ap pos (ground (arith, h))
eq_of_int_eq (pos m) (negsuc n) h = cc
eq_of_int_eq (negsuc m) (pos n) h = cc
eq_of_int_eq (negsuc m) (negsuc n) h = ap negsuc (ground (arith, h))

-- The identifiers, each at the first place where it stands.
abbrev pub firsts : List ℤ → List ℤ
firsts [] = []
firsts (n ∷ ns) = n ∷ select (λ m. not (int_eq m n)) (firsts ns)

abbrev new_to : List ℤ → ℤ → Bool
new_to ids m = not (any (int_eq m) ids)

any-snoc :
    (m n : ℤ) (ids : List ℤ) → any (int_eq m) (ids ++ n ∷ []) ≡ (any (int_eq m) ids || int_eq m n)
any-snoc m n [] = ground arith
any-snoc m n (i ∷ ids) = ground (arith, any-snoc m n ids)

same_test :
    (ids : List ℤ) (n m : ℤ)
    → any (int_eq n) ids ≡ true
    → int_eq m n ≡ true
    → any (int_eq m) ids ≡ true
same_test ids n m h k = ap (λ x. any (int_eq x) ids) (eq_of_int_eq m n k) ∙ h

-- Dropping one identifier before those that are known: nothing new, if it is known itself.
new_to-known :
    (ids : List ℤ) (n : ℤ) (xs : List ℤ)
    → any (int_eq n) ids ≡ true
    → select (new_to ids) (select (λ m. not (int_eq m n)) xs) ≡ select (new_to ids) xs
new_to-known ids n [] h = refl
new_to-known ids n (x ∷ xs) h = elim (Bool-cases (int_eq x n)) [
  | inl same ↦ let k = same_test ids n x h same in rw (same, k) (new_to-known ids n xs h)
  | inr other ↦ rw other (ap (λ r. if new_to ids x then x ∷ r else r) (new_to-known ids n xs h))
]

new_to-snoc :
    (ids : List ℤ) (n : ℤ) (xs : List ℤ)
    → select (new_to (ids ++ n ∷ [])) xs ≡ select (new_to ids) (select (λ m. not (int_eq m n)) xs)
new_to-snoc ids n [] = refl
new_to-snoc ids n (x ∷ xs) = elim (Bool-cases (int_eq x n)) [
  | inl same ↦ ground (arith, any-snoc x n ids, new_to-snoc ids n xs, same)
  | inr other ↦ ground (arith, any-snoc x n ids, new_to-snoc ids n xs, other)
]

distinct-firsts : (ids ns : List ℤ) → distinct ids ns ≡ ids ++ select (new_to ids) (firsts ns)
distinct-firsts ids [] = sym (append-nil ids)
distinct-firsts ids (n ∷ ns) = elim (Bool-cases (any (int_eq n) ids)) [
  | inl known ↦
      rw known
        (distinct-firsts ids ns ∙ ap (λ r. ids ++ r) (sym (new_to-known ids n (firsts ns) known)))
  | inr fresh ↦ rw fresh (
      distinct-firsts (ids ++ n ∷ []) ns
      ∙ ap (λ r. (ids ++ n ∷ []) ++ r) (new_to-snoc ids n (firsts ns))
      ∙ append_assoc ids (n ∷ []) _)
]

select-new : (xs : List ℤ) → select (new_to []) xs ≡ xs
select-new [] = refl
select-new (x ∷ xs) = ap (λ r. x ∷ r) (select-new xs)

-- The column that `set_recipients` writes for some identifiers is read back as these identifiers,
-- each once, where it first stands; for no identifiers it is read as BACKUP_CHAT_IDS, and as ADMIN_IDS
-- where that is empty too. Reading raises no ValueError.
pub recipient_list-join_ids :
    (env : BackupDefaults) (row : BotSettings) (ns : List ℤ)
    → row.backup_recipients ≡ or_none (join_ids ns)
    → recipient_list env row ≡ ok (or_ids (firsts ns) (or_ids env.backup_chat_ids env.admin_ids))
unfolding recipient_list
recipient_list-join_ids env row ns stored = rw stored (
    rw (or_empty-or_none (join_ids ns))
      (rw (read_ids-join_ids ns ∙ ap ok (distinct-firsts [] ns ∙ select-new (firsts ns))) refl))
