-- ===== src/Render/Fit/Wrapping.antt =====
-- app/rendering/fit.py: the width of wrapped lines.
use planmaker.Common.{
  ◌≤◌, ◌≡◌, Bool, true, List, [], ◌∷◌, ◌++◌, All, All-append, length, ◌⊎◌, inl, inr, Bool-cases,
  arith,
}
use planmaker.Common.Text.{Text, is_empty, strip, split_on}
use planmaker.Render.Fit.{flushed, break_word, wrap_word, wrap_words, wrap_line, space}

module _ (fits : Text → Bool) where
  -- The line fits, or it is a single character, which cannot be broken.
  abbrev pub Fitting : Text → Type 0
  Fitting t = (fits t ≡ true) ⊎ (length t ≤ 1)

  flushed-All : (t : Text) → Fitting t → All Fitting (flushed fits t)
  flushed-All [] h = tt
  flushed-All (c ∷ t) h = (h, tt)

  break_word-Fitting :
      (chunk word : Text)
      → Fitting chunk
      → All Fitting (break_word fits chunk word).0 × Fitting (break_word fits chunk word).1
  break_word-Fitting chunk [] h = (tt, h)
  break_word-Fitting chunk (c ∷ cs) h = elim (Bool-cases (fits (chunk ++ c ∷ []))) [
    | inl longer ↦ rw longer (break_word-Fitting (chunk ++ c ∷ []) cs (inl longer))
    | inr wide ↦
        let (lines, last) = break_word-Fitting (c ∷ []) cs (inr (omega arith)) in
        rw wide (All-append Fitting (flushed fits chunk) _ (flushed-All chunk h) lines, last)
  ]

  wrap_word-Fitting :
      (current word : Text)
      → Fitting current
      → All Fitting (wrap_word fits current word).0 × Fitting (wrap_word fits current word).1
  wrap_word-Fitting current word h = elim (Bool-cases (fits (strip (current ++ space ∷ word)))) [
    | inl together ↦ rw together (tt, inl together)
    | inr apart ↦ elim (Bool-cases (fits word)) [
      | inl alone ↦ rw (apart, alone) (flushed-All current h, inl alone)
      | inr wide ↦
          let (lines, last) = break_word-Fitting [] word (inr (omega arith)) in
          rw (apart, wide)
            (All-append Fitting (flushed fits current) _ (flushed-All current h) lines, last)
    ]
  ]

  wrap_words-Fitting :
      (current : Text) (words : List Text)
      → Fitting current
      → All Fitting (wrap_words fits current words)
  wrap_words-Fitting current [] h = flushed-All current h
  wrap_words-Fitting current (word ∷ words) h =
      let (lines, next) = wrap_word-Fitting current word h in
      All-append Fitting (wrap_word fits current word).0 _ lines
        (wrap_words-Fitting (wrap_word fits current word).1 words next)

  -- Every line that a text is wrapped into fits the width, or is a single character that is wider
  -- than the box by itself.
  pub wrap_line-Fitting : (text : Text) → All Fitting (wrap_line fits text)
  unfolding wrap_line
  wrap_line-Fitting text = elim (Bool-cases (is_empty (strip text))) [
    | inl blank ↦ rw blank tt
    | inr given ↦ elim (Bool-cases (fits (strip text))) [
      | inl short ↦ rw (given, short) (inl short, tt)
      | inr long ↦
          rw (given, long) (wrap_words-Fitting [] (split_on space (strip text)) (inr (omega arith)))
    ]
  ]
