-- ===== src/Domain/Activity.antt =====
-- app/domain/models.py, class Activity: one cell of the sheet. The `id` of an activity, an
-- assignment or a plan is a random label that no code of the domain reads; it is left out.
use planmaker.Common.{
  ℕ, zero, suc, Bool, not, ◌||◌, List, [], ◌∷◌, map, select, drop, if◌then◌else◌,
}
use planmaker.Common.Text.{Text, codes, is_empty, strip, split_on, join, replace_char}

pub record Activity : Type 0 where
  pub slot_index : ℕ
  pub subject : Text
  pub topic : Text
  pub description : Text
  pub duration : Text
  pub notes : Text

-- `bool(p.strip())`
abbrev pub has_text : Text → Bool
has_text p = not (is_empty (strip p))

-- The notes do not count.
unfoldable pub activity_is_empty : Activity → Bool
activity_is_empty a =
    not (has_text a.subject || has_text a.topic || has_text a.description || has_text a.duration)

-- `if p.strip(): lines.append(p.strip())`
abbrev pub line : Text → List Text → List Text
line p lines = if has_text p then strip p ∷ lines else lines

unfoldable pub render_lines : Activity → List Text
render_lines a = line a.subject (line a.topic (line a.description (line a.duration [])))

unfoldable pub summary : Activity → Text
unfolding render_lines
summary a = join (codes " | ") (render_lines a)

-- `|` and the Arabic comma `،`.
abbrev pub bar : ℕ
bar = 124

abbrev pub arabic_comma : ℕ
arabic_comma = 1548

abbrev pub newline : ℕ
newline = 10

-- The texts between the separators, stripped, without the blank ones.
unfoldable pub quick_parts : Text → List Text
quick_parts raw =
    let text = replace_char arabic_comma bar (replace_char newline bar raw) in
    select (λ p. not (is_empty p)) (map strip (split_on bar text))

-- `parts[i] if len(parts) > i else ""`
abbrev pub part : List Text → ℕ → Text
part [] i = []
part (p ∷ ps) zero = p
part (p ∷ ps) (suc i) = part ps i

-- The padding to four parts only adds empty texts, which `part` returns out of range anyway.
unfoldable pub from_quick_entry : ℕ → Text → Activity
unfolding quick_parts
from_quick_entry slot_index raw =
    let parts = quick_parts raw in
    record {
      slot_index = slot_index;
      subject = part parts 0;
      topic = part parts 1;
      description = part parts 2;
      duration = strip (join (codes " ") (drop 3 parts));
      notes = [];
    }
