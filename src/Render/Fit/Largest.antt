-- ===== src/Render/Fit/Largest.antt =====
-- app/rendering/fit.py: the loop over font sizes.
use planmaker.Common.{
  ℕ, zero, suc, ◌+◌, ◌-◌, ◌≤◌, ◌<◌, ◌≡◌, refl, Bool, true, false, ◌&&◌, ◌↔◌, not, Option, none,
  some, List, arith, leb, length, map, select, Bool-cases, ap, ◌∙◌, ◌==◌, inl, inr, ◌⊎◌,
}
use planmaker.Common.Text.{Text, is_empty, strip}
use planmaker.Render.Fit.{FitResult, attempt, is_good, fit_loop, wrap_all, within_lines, fit_text}

module _ (fits : ℕ → Text → Bool) (used_height : ℕ → ℕ → ℕ) (avail_h : ℕ) (max_lines : Option ℕ)
    (lines_in : List Text) where
  abbrev good : ℕ → Bool
  good size = is_good fits used_height avail_h max_lines lines_in size

  abbrev pub loop : ℕ → ℕ → FitResult → FitResult
  loop k size last = fit_loop fits used_height avail_h max_lines lines_in k size last

  -- The loop finds the first good size from `size` down, or says that the text overflows.
  fit_loop_lem :
      (k size : ℕ) (last : FitResult)
      → k ≤ suc size
      → ((s : ℕ) × (loop k size last ≡ attempt fits used_height avail_h max_lines lines_in s)
          × (good s ≡ true)
          × (s ≤ size)
          × (size < s + k)
          × ((t : ℕ) → s < t → t ≤ size → good t ≡ false))
        ⊎ (((loop k size last).overflow ≡ true)
            × ((t : ℕ) → size < t + k → t ≤ size → good t ≡ false))
  fit_loop_lem zero size last h = inr (refl, λ t low high. absurd (omega arith))
  fit_loop_lem (suc k) size last h = elim (Bool-cases (good size)) [
    | inl fine ↦
        rw fine
          (inl (size, refl, fine, omega arith, omega arith, λ t low high. absurd (omega arith)))
    | inr bad ↦
        rw bad
          (elim (fit_loop_lem k (size - 1)
            (attempt fits used_height avail_h max_lines lines_in size) (omega arith)) [
              | inl (s, result, fine, high, low, above) ↦ inl (
                s,
                result,
                fine,
                omega arith,
                omega arith,
                λ t over under. with_size size t under bad (λ smaller. above t over (omega arith)),
              )
              | inr (overflows, none_good) ↦ inr (
                overflows,
                λ t over under.
                    with_size size t under bad (λ smaller. none_good t (omega arith) (omega arith)),
              )
            ])
  ]
    where
      -- A size up to `size` is `size` itself or smaller.
      with_size :
          (size t : ℕ) → t ≤ size → good size ≡ false → (t < size → good t ≡ false) → good t ≡ false
      with_size size t under bad smaller = elim (Bool-cases (t == size)) [
        | inl same ↦ let is : t ≡ size = ground arith in ap good is ∙ bad
        | inr other ↦ smaller (ground arith)
      ]

abbrev pub IsWithin : Option ℕ → ℕ → Type 0
IsWithin none n = Unit
IsWithin (some most) n = n ≤ most

-- The text that is drawn: the lines without the blank ones, stripped.
abbrev pub drawn_lines : List Text → List Text
drawn_lines lines = select (λ t. not (is_empty t)) (map strip lines)

module _ (fits : ℕ → Text → Bool) (used_height : ℕ → ℕ → ℕ) (avail_w avail_h : ℕ)
    (max_lines : Option ℕ) (max_size min_size : ℕ) (lines : List Text) where
  abbrev pub wrapped : ℕ → List Text
  wrapped size =
      wrap_all fits used_height avail_h max_lines (drawn_lines lines) size (drawn_lines lines)

  -- The wrapped text has room at a size: its height, and its number of lines.
  abbrev pub HasRoom : ℕ → Type 0
  HasRoom size =
      (used_height size (length (wrapped size)) ≤ avail_h)
      × IsWithin max_lines (length (wrapped size))

  within_lines_iff : (most : Option ℕ) (n : ℕ) → (within_lines most n ≡ true) ↔ IsWithin most n
  within_lines_iff none n = (λ h. tt, λ h. refl)
  within_lines_iff (some m) n = ground arith

  good-HasRoom :
      (size : ℕ)
      → (is_good fits used_height avail_h max_lines (drawn_lines lines) size ≡ true) ↔ HasRoom size
  unfolding is_good attempt
  good-HasRoom size = both_tests (within_lines_iff max_lines (length (wrapped size)))
    where
      both_tests :
          {h n : ℕ} {P : Type 0} {b : Bool}
          → (b ≡ true) ↔ P
          → ((leb h n && b) ≡ true) ↔ ((h ≤ n) × P)
      both_tests w = (
        λ e. (ground (arith, e), w.0 (ground (arith, e))),
        λ k. let yes = w.1 k.1 in ground (arith, k.0, yes),
      )

  bad-HasRoom :
      (size : ℕ)
      → is_good fits used_height avail_h max_lines (drawn_lines lines) size ≡ false
      → ¬ HasRoom size
  bad-HasRoom size bad room = absurd (cc (bad, (good-HasRoom size).1 room))

  fit_text-loop :
      is_empty (drawn_lines lines) ≡ false
      → 4 < avail_w
      → 4 < avail_h
      → (failed : FitResult) × (fit_text fits used_height avail_w avail_h max_lines max_size
            min_size lines
          ≡ fit_loop fits used_height avail_h max_lines
              (drawn_lines lines)
              (max_size + 1 - min_size)
              max_size
              failed)
  unfolding fit_text
  fit_text-loop filled wide high =
      let w : leb avail_w 4 ≡ false = ground arith in
      let h : leb avail_h 4 ≡ false = ground arith in rw (filled, w, h) (_, refl)

  -- A text that is not blank, in a box with more than four points inside the padding. Either it is
  -- drawn at a size of the range at which its wrapped lines have room, in height and in number, and
  -- at no larger size of the range they have it; or they have room at no size of the range, and the
  -- result says that the text overflows.
  pub fit_text-largest :
      is_empty (drawn_lines lines) ≡ false
      → 4 < avail_w
      → 4 < avail_h
      → let r = fit_text fits used_height avail_w avail_h max_lines max_size min_size lines in
        ((s : ℕ) × (min_size ≤ s)
          × (s ≤ max_size)
          × (r.font_size ≡ s)
          × (r.lines ≡ wrapped s)
          × (r.overflow ≡ false)
          × HasRoom s
          × ((t : ℕ) → s < t → t ≤ max_size → ¬ HasRoom t))
        ⊎ ((r.overflow ≡ true) × ((t : ℕ) → min_size ≤ t → t ≤ max_size → ¬ HasRoom t))
  unfolding attempt
  fit_text-largest filled wide high =
      let (failed, same) = fit_text-loop filled wide high in
      elim (fit_loop_lem fits used_height avail_h max_lines (drawn_lines lines)
        (max_size + 1 - min_size) max_size failed (omega arith)) [
          | inl (s, result, fine, low, from, above) ↦ inl (
            s,
            omega arith,
            low,
            ap (λ (x : FitResult). x.font_size) (same ∙ result),
            ap (λ (x : FitResult). x.lines) (same ∙ result),
            ap (λ (x : FitResult). x.overflow) (same ∙ result),
            (good-HasRoom s).0 fine,
            λ t over under. bad-HasRoom t (above t over under),
          )
          | inr (overflows, none_good) ↦ inr (
            ap (λ (x : FitResult). x.overflow) same ∙ overflows,
            λ t from under. bad-HasRoom t (none_good t (omega arith) under),
          )
        ]
