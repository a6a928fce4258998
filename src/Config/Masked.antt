-- ===== src/Config/Masked.antt =====
-- app/config.py, `mask_token`: what the log shows of the token.
use planmaker.Common.{◌≡◌, refl, false, [], ◌∷◌, ◌++◌, arith}
use planmaker.Common.Text.{Text, codes, is_empty, partition}
use planmaker.Common.Text.Split.{Lacks}
use planmaker.Config.{mask_token}

nonempty : (head secret : Text) → is_empty (head ++ 58 ∷ secret) ≡ false
nonempty [] secret = refl
nonempty (c ∷ head) secret = refl

partition-colon :
    (head secret : Text) → Lacks 58 head → (partition (codes ":") (head ++ 58 ∷ secret)).0 ≡ head
unfolding partition
partition-colon [] secret lacks = ground arith
partition-colon (c ∷ head) secret lacks = ground (arith, lacks, partition-colon head secret)

-- Of a token of the expected form, an identifier, a colon and a secret, only the identifier is
-- shown, whatever the secret.
pub mask_token-hides :
    (head secret : Text) → Lacks 58 head → mask_token (head ++ 58 ∷ secret) ≡ head ++ codes ":***"
unfolding mask_token
mask_token-hides head secret lacks =
    rw (nonempty head secret) (rw (partition-colon head secret lacks) refl)
