-- ===== src/Render/Assignments/Lines.antt =====
-- app/rendering/assignments.py: the lines of assignments.
use planmaker.Common.{
  ℕ, zero, suc, ◌+◌, ◌-◌, ◌*◌, ◌≤◌, min, ◌≡◌, refl, ap, ◌∙◌, List, [], ◌∷◌, ◌++◌, map, take, drop,
  length, length-drop, take-append-drop, arith, ◌==◌, if◌then◌else◌, Bool-cases, inl, inr,
}
use native.Mathlib.Nat.{lt-div-mul-add, le-div_iff_mul-le, zero-lt-suc}
use planmaker.Common.Text.{Text, join}
use planmaker.Domain.Plan.{Assignment}
use planmaker.Render.Assignments.{
  AssignmentLayout, buckets_of, ceil_div, chunks_from, chunks, labels, lines_of, unless_empty,
  sorted, assignment_lines, dropped_assignments,
}

module _ {ℓ} {A : Type ℓ} where
  abbrev pub concat : List (List A) → List A
  concat [] = []
  concat (xs ∷ xss) = xs ++ concat xss

  concat-chunks_from :
      (fuel per : ℕ) (xs : List A)
      → length xs ≤ fuel
      → 1 ≤ per
      → concat (chunks_from fuel per xs) ≡ xs
  concat-chunks_from zero per [] h k = refl
  concat-chunks_from zero per (x ∷ xs) h k = absurd (omega arith)
  concat-chunks_from (suc fuel) per [] h k = refl
  concat-chunks_from (suc fuel) per (x ∷ xs) h k =
      let shorter : length (drop per (x ∷ xs)) ≤ fuel = omega (arith, length-drop per (x ∷ xs)) in
      ap (λ r. take per (x ∷ xs) ++ r) (concat-chunks_from fuel per (drop per (x ∷ xs)) shorter k)
      ∙ take-append-drop per (x ∷ xs)

  length-chunks_from :
      (fuel per b : ℕ) (xs : List A)
      → length xs ≤ per * b
      → 1 ≤ per
      → length (chunks_from fuel per xs) ≤ b
  length-chunks_from zero per b xs h k = omega arith
  length-chunks_from (suc fuel) per b [] h k = omega arith
  length-chunks_from (suc fuel) per zero (x ∷ xs) h k = absurd (omega arith)
  length-chunks_from (suc fuel) per (suc b) (x ∷ xs) h k =
      let left : length (drop per (x ∷ xs)) ≤ per * b = omega (arith, length-drop per (x ∷ xs)) in
      omega (arith, length-chunks_from fuel per b (drop per (x ∷ xs)) left k)

  take-all : (n : ℕ) (xs : List A) → length xs ≤ n → take n xs ≡ xs
  take-all zero [] h = refl
  take-all zero (x ∷ xs) h = absurd (omega arith)
  take-all (suc n) [] h = refl
  take-all (suc n) (x ∷ xs) h = ap (λ r. x ∷ r) (take-all n xs (omega arith))

-- The rounded quotient is large enough, and not zero for one item or more.
ceil_div-covers : (n b : ℕ) → n ≤ ceil_div n (suc b) * suc b
ceil_div-covers n b =
    omega (arith, lt-div-mul-add {a = n + (suc b - 1)} {b = suc b} (zero-lt-suc b))

ceil_div-positive : (n b : ℕ) → 1 ≤ ceil_div (suc n) (suc b)
ceil_div-positive n b =
    (le-div_iff_mul-le {k = suc b} {x = 1} {y = suc n + (suc b - 1)} (zero-lt-suc b)).1
      (omega arith)

-- What a list of lines shows: parts that the separator joins, all labels in order.
pub record Shows (l : AssignmentLayout) (numbered : List Text) (lines : List Text) : Type 0 where
  pub parts : List (List Text)
  pub joined : lines ≡ map (join l.separator) parts
  pub all_in_order : concat parts ≡ numbered
  pub fits : length parts ≤ buckets_of l

append-nil {ℓ} : {A : Type ℓ} (xs : List A) → xs ++ [] ≡ xs
append-nil [] = refl
append-nil (x ∷ xs) = ap (λ r. x ∷ r) (append-nil xs)

lines_of-Shows :
    (l : AssignmentLayout) (t : Text) (ts : List Text) (b : ℕ)
    → buckets_of l ≡ suc b
    → Shows l (t ∷ ts) (lines_of l (t ∷ ts))
lines_of-Shows l t ts b is = elim (Bool-cases (buckets_of l == 1)) [
  | inl one ↦ rw one (record {
    parts = (t ∷ ts) ∷ [];
    joined = refl;
    all_in_order = append-nil (t ∷ ts);
    fits = omega arith;
  })
  | inr several ↦
      let numbered = t ∷ ts in
      let per = ceil_div (length numbered) (buckets_of l) in
      let positive : 1 ≤ per = rw is (ceil_div-positive (length ts) b) in
      let covers : length numbered ≤ per * buckets_of l =
        rw is (ceil_div-covers (length numbered) b) in
      let few = length-chunks_from (length numbered) per (buckets_of l) numbered covers positive in
      rw several (record {
        parts = chunks per numbered;
        joined = ap (map (join l.separator)) (take-all (buckets_of l) (chunks per numbered) few);
        all_in_order = concat-chunks_from (length numbered) per numbered (omega arith) positive;
        fits = few;
      })
]

-- The lines show every assignment of the plan, numbered from 1 in the order of the plan, on no more
-- lines than the template has (one, when it has none), and so none is dropped.
pub assignment_lines_lem :
    (assignments : List Assignment) (l : AssignmentLayout)
    → Shows l (labels l 1 (sorted assignments)) (assignment_lines assignments l)
      × (dropped_assignments assignments l ≡ 0)
unfolding assignment_lines dropped_assignments
assignment_lines_lem assignments l =
    (shown (sorted assignments), none_dropped (length (sorted assignments)))
  where
    at_least_one : buckets_of l ≡ suc (buckets_of l - 1)
    at_least_one = omega arith

    shown : (items : List Assignment) → Shows l (labels l 1 items) (unless_empty l items)
    shown [] = record { parts = []; joined = refl; all_in_order = refl; fits = omega arith }
    shown (a ∷ as') = lines_of-Shows l _ _ (buckets_of l - 1) at_least_one

    none_dropped :
        (n : ℕ) → n - min n ((if n == 0 then 0 else ceil_div n (buckets_of l)) * buckets_of l) ≡ 0
    none_dropped zero = omega arith
    none_dropped (suc n) =
        let covers : suc n ≤ ceil_div (suc n) (buckets_of l) * buckets_of l =
          rw at_least_one (ceil_div-covers (suc n) (buckets_of l - 1)) in
        grind arith
