-- ===== src/Examples/Sheet.antt =====
-- What is drawn on a sheet: the font size of a text in its box.
use planmaker.Common.{
  refl, ℕ, ◌*◌, ◌≤◌, ◌<◌, ◌≡◌, ◌⊎◌, Bool, true, false, none, List, [], ◌∷◌, leb, length, arith,
}
use planmaker.Common.Text.{Text, codes, strip, is_space}
use planmaker.Render.Fit.{fit_text}
use planmaker.Render.Fit.Largest.{wrapped, HasRoom, fit_text-largest}

-- A font whose characters are as wide as its size.
abbrev fixed : ℕ → Text → Bool
fixed size t = leb (length t * size) 40

abbrev heights : ℕ → ℕ → ℕ
heights size lines = size * lines

abbrev texts : List Text
texts = codes "abcd ef" ∷ []

fit_text-largest_example :
    let r = fit_text fixed heights 40 30 none 12 4 texts in
    ((s : ℕ) × (4 ≤ s)
      × (s ≤ 12)
      × (r.font_size ≡ s)
      × (r.lines ≡ wrapped fixed heights 40 30 none 12 4 texts s)
      × (r.overflow ≡ false)
      × HasRoom fixed heights 40 30 none 12 4 texts s
      × ((t : ℕ) → s < t → t ≤ 12 → ¬ HasRoom fixed heights 40 30 none 12 4 texts t))
    ⊎ ((r.overflow ≡ true)
        × ((t : ℕ) → 4 ≤ t → t ≤ 12 → ¬ HasRoom fixed heights 40 30 none 12 4 texts t))
unfolding strip is_space
fit_text-largest_example =
    fit_text-largest fixed heights 40 30 none 12 4 texts refl (omega arith) (omega arith)
