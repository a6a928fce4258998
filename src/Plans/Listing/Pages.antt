-- ===== src/Plans/Listing/Pages.antt =====
-- The pages of the list of plans, and the newest plan of a student.
use planmaker.Common.{
  ℕ, zero, suc, ◌+◌, ◌*◌, ◌≤◌, ◌≡◌, refl, ap, sym, ◌∙◌, Bool, Option, none, some, List, [], ◌∷◌,
  ◌++◌, leb, select, length, take, drop, arith, All, All-imp, ◌&&◌, ◌==◌, Bool-cases, inl, inr,
}
use planmaker.Database.{Db, PlanRow}
use planmaker.Plans.{is_issued}
use planmaker.Plans.Listing.{
  insert_latest, by_week_start, is_listed, history, count_history, first_of, latest_for_student,
}

-- The pages from the first on, one after the other.
abbrev pub pages : (ℕ → List PlanRow) → ℕ → List PlanRow
pages page zero = []
pages page (suc n) = pages page n ++ page n

take-nil : (n : ℕ) → take {A = PlanRow} n [] ≡ []
take-nil zero = refl
take-nil (suc n) = refl

take-add : (m n k : ℕ) (xs : List PlanRow) → k ≡ m + n → take m xs ++ take n (drop m xs) ≡ take k xs
take-add zero n k xs h = ap (λ j. take j xs) (omega arith)
take-add (suc m) n k [] h = take-nil n ∙ sym (take-nil k)
take-add (suc m) n zero (x ∷ xs) h = absurd (omega arith)
take-add (suc m) n (suc k) (x ∷ xs) h = ap (λ r. x ∷ r) (take-add m n k xs (omega arith))

pages-take :
    (limit n : ℕ) (xs : List PlanRow)
    → pages (λ k. take limit (drop (k * limit) xs)) n ≡ take (n * limit) xs
pages-take limit zero xs = ap (λ j. take j xs) {x = 0} (omega arith)
pages-take limit (suc n) xs =
    ap (λ r. r ++ take limit (drop (n * limit) xs)) (pages-take limit n xs)
    ∙ take-add (n * limit) limit (suc n * limit) xs (omega arith)

take-all : (n : ℕ) (xs : List PlanRow) → length xs ≤ n → take n xs ≡ xs
take-all zero [] h = refl
take-all zero (x ∷ xs) h = absurd (omega arith)
take-all (suc n) [] h = refl
take-all (suc n) (x ∷ xs) h = ap (λ r. x ∷ r) (take-all n xs (omega arith))

length-insert_latest :
    (p : PlanRow) (qs : List PlanRow) → length (insert_latest p qs) ≡ suc (length qs)
length-insert_latest p [] = refl
length-insert_latest p (q ∷ qs) = ground (arith, length-insert_latest p qs)

length-by_week_start : (ps : List PlanRow) → length (by_week_start ps) ≡ length ps
length-by_week_start [] = refl
length-by_week_start (p ∷ ps) =
    length-insert_latest p (by_week_start ps) ∙ ap suc (length-by_week_start ps)

-- Enough pages of one size for the count show every plan of the list, once and in its order.
pub history-pages :
    (advisor_id student_id : Option ℕ) (only_generated : Bool) (db : Db) (limit n : ℕ)
    → count_history advisor_id student_id only_generated db ≤ n * limit
    → pages (λ k. history advisor_id student_id limit (k * limit) only_generated db) n
      ≡ by_week_start (select (is_listed advisor_id student_id only_generated) db.plans)
unfolding history count_history
history-pages advisor_id student_id only_generated db limit n enough =
    let rows = select (is_listed advisor_id student_id only_generated) db.plans in
    pages-take limit n (by_week_start rows)
    ∙ take-all (n * limit) (by_week_start rows) (omega (arith, length-by_week_start rows))

-- What `limit(1)` on the sorted rows gives.
abbrev IsLatest : List PlanRow → Option PlanRow → Type 0
IsLatest ps none = ps ≡ []
IsLatest ps (some p) = All (λ q. q.week_start ≤ p.week_start) ps

insert_latest-IsLatest :
    (p : PlanRow) (ps r : List PlanRow)
    → IsLatest ps (first_of r)
    → IsLatest (p ∷ ps) (first_of (insert_latest p r))
insert_latest-IsLatest p ps [] h = rw h (omega arith, tt)
insert_latest-IsLatest p ps (q ∷ qs) h = elim (Bool-cases (leb q.week_start p.week_start)) [
  | inl before ↦
      let le : q.week_start ≤ p.week_start = ground arith in
      rw before (omega arith, All-imp _ _ ps (λ c k. omega arith) h)
  | inr after ↦ rw after (ground arith, h)
]

by_week_start-IsLatest : (ps : List PlanRow) → IsLatest ps (first_of (by_week_start ps))
by_week_start-IsLatest [] = refl
by_week_start-IsLatest (p ∷ ps) =
    insert_latest-IsLatest p ps (by_week_start ps) (by_week_start-IsLatest ps)

first_of-take : (ps : List PlanRow) → first_of (take 1 ps) ≡ first_of ps
first_of-take [] = refl
first_of-take (p ∷ ps) = refl

-- `latest_for_student` returns `None` only for a student without an issued plan, and otherwise a
-- plan that no issued plan of the student starts after.
pub latest_for_student-IsLatest :
    (i : ℕ) (db : Db)
    → IsLatest
        (select (λ (p : PlanRow). (p.student_id == i) && is_issued p.status) db.plans)
        (latest_for_student i db)
unfolding latest_for_student
latest_for_student-IsLatest i db =
    let rows = select (λ (p : PlanRow). (p.student_id == i) && is_issued p.status) db.plans in
    rw (first_of-take (by_week_start rows)) (by_week_start-IsLatest rows)
