-- ===== src/Restore/Plan/Refusals.antt =====
-- app/services/restore.py: which archives `_revision_problem` and `_dialect_warnings` refuse.
use planmaker.Common.{
  ℕ, suc, ◌≡◌, refl, sym, ◌∙◌, ◌↔◌, inl, inr, Bool, true, false, ◌||◌, Option, none, some, List, [],
  ◌∷◌, if◌then◌else◌, any, is_some, arith, Bool-cases,
}
use planmaker.Common.Dict.{lookup, insert, lookup-insert}
use planmaker.Common.Result.{ok}
use planmaker.Common.Text.{Text, text_eq, text_eq_refl, eq_of_text_eq, is_empty}
use planmaker.Restore.Archive.{text_key}
use planmaker.Restore.Plan.{order_from, compare_places, revision_problem}

abbrev pub is_in : Text → List Text → Bool
is_in r rs = any (λ q. text_eq q r) rs

or-cases :
    (later same : Bool) (n : ℕ) (o : Option ℕ)
    → (later || is_some (if same then some n else o)) ≡ (same || later || is_some o)
or-cases later same n o = ground arith

or-false : (a b : Bool) → (a || b) ≡ false → (a ≡ false) × (b ≡ false)
or-false true b h = cc
or-false false b h = (refl, h)

lookup-order_from :
    (r : Text) (rs : List Text) (index : ℕ) (out : List (Text × ℕ))
    → is_some (lookup text_key r (order_from index rs out))
      ≡ (is_in r rs || is_some (lookup text_key r out))
unfolding order_from text_key
lookup-order_from r [] index out = refl
lookup-order_from r (q ∷ rs) index out =
    lookup-order_from r rs (suc index) (insert text_key q index out)
    ∙ rw lookup-insert (or-cases (is_in r rs) (text_eq q r) index (lookup text_key r out))

lookup-order_from_absent :
    (r : Text) (rs : List Text) (index : ℕ) (out : List (Text × ℕ))
    → is_in r rs ≡ false
    → lookup text_key r (order_from index rs out) ≡ lookup text_key r out
unfolding order_from text_key
lookup-order_from_absent r [] index out absent = refl
lookup-order_from_absent r (q ∷ rs) index out absent =
    let (other, rest) = or-false (text_eq q r) (is_in r rs) absent in
    lookup-order_from_absent r rs (suc index) (insert text_key q index out) rest
    ∙ rw lookup-insert (rw other refl)

-- Alembic's walk starts at the head, and names it once.
abbrev pub StartsAt : Text → List Text → Type 0
StartsAt head [] = ⊥
StartsAt head (r ∷ rs) = (r ≡ head) × (is_in head rs ≡ false)

head-place :
    (head : Text) (walk : List Text)
    → StartsAt head walk
    → lookup text_key head (order_from 0 walk []) ≡ some 0
unfolding order_from text_key
head-place head [] starts = absurd starts
head-place head (r ∷ rs) starts =
    lookup-order_from_absent head rs 1 (insert text_key r 0 []) starts.1
    ∙ rw (lookup-insert {V = ℕ} text_key r head 0 []) (rw starts.0 (rw (text_eq_refl head) refl))

found-nonempty :
    (k : Text) (n : ℕ) (d : List (Text × ℕ)) → lookup text_key k d ≡ some n → is_empty d ≡ false
unfolding lookup
found-nonempty k n [] h = cc
found-nonempty k n (e ∷ d) h = refl

is_in-head :
    (head r : Text) (walk : List Text) → StartsAt head walk → head ≡ r → is_in r walk ≡ true
is_in-head head r [] starts same = absurd starts
is_in-head head r (q ∷ rs) starts same = rw (starts.0 ∙ same) (rw (text_eq_refl r) refl)

drop_false : (b : Bool) → (b || false) ≡ true → b ≡ true
drop_false b h = ground (arith, h)

compare_iff :
    (place : Option ℕ) → (compare_places place (some 0) ≡ ok none) ↔ (is_some place ≡ true)
compare_iff none = (λ h. cc, λ h. cc)
compare_iff (some n) = (λ h. refl, λ h. ground arith)

-- With the migrations of the installed code, an archive is refused exactly when its revision is
-- none of theirs: every revision that the code knows, the head included, is accepted.
pub revision_problem-walk_iff :
    (r head : Text) (walk : List Text)
    → StartsAt head walk
    → (revision_problem (some r) (some head) (order_from 0 walk []) ≡ ok none)
      ↔ (is_in r walk ≡ true)
unfolding revision_problem lookup
revision_problem-walk_iff r head walk starts =
    let placed = head-place head walk starts in
    let known = lookup-order_from r walk 0 [] in
    rw (found-nonempty head 0 _ placed) (
      rw placed (elim (Bool-cases (text_eq r head)) [
        | inl same ↦
            rw same
              (λ h. is_in-head head r walk starts (sym (eq_of_text_eq r head same)), λ h. refl)
        | inr other ↦ rw other (
          λ h.
              drop_false (is_in r walk)
                (sym known ∙ (compare_iff (lookup text_key r (order_from 0 walk []))).0 h),
          λ h. (compare_iff (lookup text_key r (order_from 0 walk []))).1 (known ∙ rw h refl),
        )
      ]))
