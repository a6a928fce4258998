-- ===== src/Persian/Digits.antt =====
-- app/domain/persian.py: digits in Persian and in Latin.
use planmaker.Common.{ℕ, ◌≡◌, refl, ap, ◌∙◌, [], ◌∷◌, arith}
use planmaker.Common.Text.{Text}
use planmaker.Persian.{fa_char, en_char, to_fa_digits, to_en_digits}

en_char-fa_char : (c : ℕ) → en_char (fa_char c) ≡ en_char c
en_char-fa_char c = ground arith

-- Writing a text in Persian digits loses nothing: read back with Latin digits it is what the text
-- itself is with Latin digits.
pub to_en_digits-to_fa_digits : (t : Text) → to_en_digits (to_fa_digits t) ≡ to_en_digits t
to_en_digits-to_fa_digits [] = refl
to_en_digits-to_fa_digits (c ∷ t) =
    ap (λ d. d ∷ to_en_digits (to_fa_digits t)) (en_char-fa_char c)
    ∙ ap (λ r. en_char c ∷ r) (to_en_digits-to_fa_digits t)
