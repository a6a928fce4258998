-- ===== src/Render/Assignments.antt =====
-- app/rendering/assignments.py: the numbered assignments on the ruled lines of the template.
pub mod Lines
use planmaker.Common.{
  ℕ, zero, suc, ◌+◌, ◌-◌, ◌*◌, ◌/◌, min, max, Bool, List, [], ◌∷◌, ◌++◌, map, leb, ◌==◌,
  if◌then◌else◌, take, drop, length,
}
use planmaker.Common.Text.{Text, codes, join, decimal}
use planmaker.Domain.Plan.{Assignment}
use planmaker.Persian.{normalize_fa, apply_digit_style}

-- What the template's configuration says: how many ruled lines, the separator, the digits.
pub record AssignmentLayout : Type 0 where
  pub rules : ℕ
  pub separator : Text
  pub fa_digits : Bool

-- `sorted(plan.assignments, key=lambda a: a.order)`, stable.
pub insert_assignment : Assignment → List Assignment → List Assignment
insert_assignment a [] = a ∷ []
insert_assignment a (b ∷ bs) =
    if leb a.order b.order then a ∷ b ∷ bs else b ∷ insert_assignment a bs

unfoldable pub sorted : List Assignment → List Assignment
unfolding insert_assignment
sorted [] = []
sorted (a ∷ as') = insert_assignment a (sorted as')

abbrev pub buckets_of : AssignmentLayout → ℕ
buckets_of l = max 1 l.rules

-- `-(-n // buckets)`: the quotient, rounded up.
abbrev pub ceil_div : ℕ → ℕ → ℕ
ceil_div n b = (n + (b - 1)) / b

abbrev pub label : AssignmentLayout → ℕ → Assignment → Text
label l n a = apply_digit_style (decimal n ++ (codes ". " ++ normalize_fa a.text)) l.fa_digits

abbrev pub labels : AssignmentLayout → ℕ → List Assignment → List Text
labels l n [] = []
labels l n (a ∷ as') = label l n a ∷ labels l (n + 1) as'

-- `[xs[i:i + per] for i in range(0, len(xs), per)]`, for at most `fuel` chunks.
abbrev pub chunks_from {ℓ} : {A : Type ℓ} → ℕ → ℕ → List A → List (List A)
chunks_from zero per xs = []
chunks_from (suc fuel) per [] = []
chunks_from (suc fuel) per (x ∷ xs) = take per (x ∷ xs) ∷ chunks_from fuel per (drop per (x ∷ xs))

-- One chunk for each item is enough.
abbrev pub chunks {ℓ} : {A : Type ℓ} → ℕ → List A → List (List A)
chunks per xs = chunks_from (length xs) per xs

-- Behind the test for no items.
abbrev pub lines_of : AssignmentLayout → List Text → List Text
lines_of l numbered =
    if buckets_of l == 1
    then join l.separator numbered ∷ []
    else map (join l.separator)
        (take (buckets_of l) (chunks (ceil_div (length numbered) (buckets_of l)) numbered))

abbrev pub unless_empty : AssignmentLayout → List Assignment → List Text
unless_empty l [] = []
unless_empty l (a ∷ as') = lines_of l (labels l 1 (a ∷ as'))

unfoldable pub assignment_lines : List Assignment → AssignmentLayout → List Text
assignment_lines assignments l = unless_empty l (sorted assignments)

unfoldable pub dropped_assignments : List Assignment → AssignmentLayout → ℕ
dropped_assignments assignments l =
    let n = length (sorted assignments) in
    let per = if n == 0 then 0 else ceil_div n (buckets_of l) in n - min n (per * buckets_of l)
