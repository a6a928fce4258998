-- ===== src/Common/Settings.antt =====
-- The configuration that the modelled code reads (app/config.py and the environment variables
-- read beside the code). It never changes while the bot runs.
use mathlib.Core.Bool.{Bool}
use planmaker.Common.Text.{Text}
use Prim.Native.Nat.{ℕ}
use mathlib.Core.List.{List}

pub record Settings : Type 0 where
  -- ADMIN_IDS
  pub admin_ids : List ℕ
  -- MAX_PLAN_RANGE_DAYS of app/domain/calendar.py
  pub max_plan_range_days : ℕ
  -- `Path(raw).resolve()`, and `path.is_relative_to(root)` for the resolved STORAGE_ROOT: what the
  -- file system and pathlib say of a path
  pub resolve : Text → Text
  pub inside_root : Text → Bool
