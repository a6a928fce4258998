-- ===== src/Config.antt =====
-- app/config.py: identifiers in environment variables, the checks at the start and the masked
-- token. Reading the environment is not modelled.
pub mod Masked
use planmaker.Common.{
  Bool, true, false, not, ◌&&◌, Option, none, some, List, [], ◌∷◌, ◌++◌, if◌then◌else◌, select,
  ◌==◌,
}
use planmaker.Common.Int.{ℤ}
use planmaker.Common.Result.{Result, ok, err, ◌>>=◌}
use planmaker.Common.Text.{
  Text, codes, is_empty, text_eq, starts_with, contains, partition, split_on, strip,
}
use planmaker.Backup.Recipients.{lstrip_minus, is_number, parse_int}

-- The values of one process, and `str.lower`.
pub record Environment : Type 0 where
  pub bot_token : Text
  pub database_url : Text
  pub environment : Text
  pub lower : Text → Text

pub data ConfigProblem : Type 0 where
  no_token malformed_token no_database sqlite_in_production : ConfigProblem

abbrev pub is_sqlite : Environment → Bool
is_sqlite env = starts_with (codes "sqlite") env.database_url

abbrev pub is_production : Environment → Bool
is_production env = text_eq (env.lower env.environment) (codes "production")

abbrev problem_if : Bool → ConfigProblem → List ConfigProblem
problem_if b p = if b then p ∷ [] else []

unfoldable pub validate_for_runtime : Environment → List ConfigProblem
validate_for_runtime env =
    (if is_empty env.bot_token
      then no_token ∷ []
      else problem_if (not (contains (codes ":") env.bot_token)) malformed_token)
    ++ (problem_if (is_empty env.database_url) no_database
        ++ problem_if (is_production env && is_sqlite env) sqlite_in_production)

unfoldable pub mask_token : Text → Text
unfolding partition
mask_token token =
    if is_empty token then codes "<unset>" else (partition (codes ":") token).0 ++ codes ":***"

-- The generator over the chunks of ADMIN_IDS and of BACKUP_CHAT_IDS, for ASCII texts.
unfoldable pub chunk_ids : List Text → Result (List ℤ)
unfolding strip lstrip_minus
chunk_ids [] = ok []
chunk_ids (x ∷ chunks) =
    let skipped = chunk_ids chunks in
    let taken = do value ← parse_int x; rest ← chunk_ids chunks; ok (value ∷ rest)
    in if is_number (lstrip_minus (strip x)) then taken else skipped

unfoldable pub env_ids : Text → Result (List ℤ)
unfolding chunk_ids split_on
env_ids value = chunk_ids (split_on 44 (select (λ c. not (c == 32)) value))
