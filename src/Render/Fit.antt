-- ===== src/Render/Fit.antt =====
-- app/rendering/fit.py: word wrap, and the largest font size at which a text fits its box.
--
-- What a font says of a text's width is the parameter `fits`: of a size and a text, whether
-- `text_width(text, font) <= max_width`. The height of lines, `int(round(size * line_gap * n))`, is
-- a rounded float and the parameter `used_height`.
pub mod Wrapping
pub mod Largest
use planmaker.Common.{
  ℕ, zero, suc, ◌+◌, ◌-◌, Bool, true, false, not, ◌&&◌, Option, none, some, List, [], ◌∷◌, ◌++◌,
  map, select, length, leb, ltb, ◌||◌, if◌then◌else◌,
}
use planmaker.Common.Text.{Text, is_empty, strip, split_on}

abbrev pub space : ℕ
space = 32

module _ (fits : Text → Bool) where
  -- `if current: out.append(current)`
  abbrev pub flushed : Text → List Text
  flushed t = if is_empty t then [] else t ∷ []

  -- The hard break of a single oversized token: the lines, and the chunk that is left.
  abbrev pub break_word : Text → Text → List Text × Text
  break_word chunk [] = ([], chunk)
  break_word chunk (c ∷ cs) =
      if fits (chunk ++ c ∷ [])
      then break_word (chunk ++ c ∷ []) cs
      else (let (out, last) = break_word (c ∷ []) cs in (flushed chunk ++ out, last))

  -- One word of the loop: the lines that it completes, and the current line behind it.
  abbrev pub wrap_word : Text → Text → List Text × Text
  wrap_word current word =
      if fits (strip (current ++ space ∷ word))
      then ([], strip (current ++ space ∷ word))
      else if fits word
      then (flushed current, word)
      else (let (out, last) = break_word [] word in (flushed current ++ out, last))

  abbrev pub wrap_words : Text → List Text → List Text
  wrap_words current [] = flushed current
  wrap_words current (word ∷ words) =
      let (out, next) = wrap_word current word in out ++ wrap_words next words

  unfoldable pub wrap_line : Text → List Text
  wrap_line text =
      if is_empty (strip text)
      then []
      else if fits (strip text)
      then strip text ∷ []
      else wrap_words [] (split_on space (strip text))

pub record FitResult : Type 0 where
  pub lines : List Text
  pub font_size : ℕ
  pub overflow : Bool
  pub used_height : ℕ

abbrev pub within_lines : Option ℕ → ℕ → Bool
within_lines none n = true
within_lines (some m) n = leb n m

module _ (fits : ℕ → Text → Bool) (used_height : ℕ → ℕ → ℕ) (avail_h : ℕ) (max_lines : Option ℕ)
    (lines_in : List Text) where
  abbrev pub wrap_all : ℕ → List Text → List Text
  unfolding wrap_line
  wrap_all size [] = []
  wrap_all size (ln ∷ lns) = wrap_line (fits size) ln ++ wrap_all size lns

  -- One size of the loop.
  unfoldable pub attempt : ℕ → FitResult
  unfolding wrap_all
  attempt size = record {
    lines = wrap_all size lines_in;
    font_size = size;
    overflow = false;
    used_height = used_height size (length (wrap_all size lines_in));
  }

  unfoldable pub is_good : ℕ → Bool
  unfolding attempt
  is_good size =
      leb (attempt size).used_height avail_h && within_lines max_lines (length (attempt size).lines)

  -- `for size in range(max_size, min_size - 1, -1)`: `k` sizes are left, the next is `size`.
  abbrev pub fit_loop : ℕ → ℕ → FitResult → FitResult
  fit_loop zero size last = record last { overflow = true }
  fit_loop (suc k) size last =
      let rest = fit_loop k (size - 1) (attempt size) in if is_good size then attempt size else rest

-- `box.w - 2 * pad_x <= 4 or box.h - 2 * pad_y <= 4`, for the room inside the padding.
unfoldable pub fit_text :
    (ℕ → Text → Bool) → (ℕ → ℕ → ℕ) → ℕ → ℕ → Option ℕ → ℕ → ℕ → List Text → FitResult
fit_text fits used_height avail_w avail_h max_lines max_size min_size source_lines =
    let lines_in = select (λ t. not (is_empty t)) (map strip source_lines) in
    let failed : FitResult = record {
      lines = lines_in;
      font_size = min_size;
      overflow = true;
      used_height = 0;
    } in
    if is_empty lines_in
    then record { lines = []; font_size = max_size; overflow = false; used_height = 0 }
    else if leb avail_w 4 || leb avail_h 4
    then failed
    else fit_loop fits used_height avail_h max_lines lines_in (max_size + 1 - min_size) max_size
        failed
