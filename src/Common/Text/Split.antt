-- ===== src/Common/Text/Split.antt =====
-- Splitting what was joined by one character.
use Prim.Native.Nat.{ℕ}
use mathlib.Core.Path.{◌≡◌, refl, ap, ◌∙◌}
use mathlib.Core.Bool.{true, not}
use mathlib.Core.List.{List, [], ◌∷◌, ◌++◌}
use native.Mathlib.Omega.{arith}
use planmaker.Common.Tests.{◌==◌}
use planmaker.Common.Lists.{all, All}
use planmaker.Common.Text.{Text, split_on, join}

-- The word does not have the separator.
abbrev pub Lacks : ℕ → Text → Type 0
Lacks sep w = all (λ c. not (c == sep)) w ≡ true

split_on-word : (sep : ℕ) (w : Text) → Lacks sep w → split_on sep w ≡ w ∷ []
unfolding split_on
split_on-word sep [] lacks = refl
split_on-word sep (c ∷ w) lacks = ground (arith, lacks, split_on-word sep w)

split_on-append :
    (sep : ℕ) (w t : Text) → Lacks sep w → split_on sep (w ++ sep ∷ t) ≡ w ∷ split_on sep t
unfolding split_on
split_on-append sep [] t lacks = ground arith
split_on-append sep (c ∷ w) t lacks = ground (arith, lacks, split_on-append sep w t)

-- Words that lack the separator are split as they were joined.
pub split_on-join :
    (sep : ℕ) (w : Text) (ws : List Text)
    → All (Lacks sep) (w ∷ ws)
    → split_on sep (join (sep ∷ []) (w ∷ ws)) ≡ w ∷ ws
unfolding join
split_on-join sep w [] lacks = split_on-word sep w lacks.0
split_on-join sep w (v ∷ ws) lacks =
    split_on-append sep w _ lacks.0 ∙ ap (λ r. w ∷ r) (split_on-join sep v ws lacks.1)
