-- ===== src/Bot/Delivery.antt =====
-- app/bot/delivery.py: what is sent for a generated plan, a cached file of Telegram or the file on
-- disk. The storage root is the settings' one.
pub mod Served
use planmaker.Common.{
  Bool, true, not, ◌&&◌, ◌||◌, Option, none, some, List, [], ◌∷◌, if◌then◌else◌, is_some,
}
use planmaker.Common.Settings.{Settings}
use planmaker.Common.Text.{Text, is_empty}
use planmaker.Database.{PlanRow, Db, Time}
use planmaker.Database.Action.{Action, pure, ◌>>=◌, ◌>>◌}
use planmaker.Plans.{Artifacts, mark_generated}
use planmaker.Storage.{exists}

pub data Kind : Type 0 where
  png pdf : Kind

-- `if t` for an optional text.
abbrev pub text_or_none : Option Text → Option Text
text_or_none none = none
text_or_none (some t) = if is_empty t then none else some t

unfoldable pub cached_file_id : PlanRow → Kind → Option Text
cached_file_id plan png = plan.image_file_id
cached_file_id plan pdf = plan.pdf_file_id

abbrev pub raw_path : PlanRow → Kind → Option Text
raw_path plan png = plan.image_path
raw_path plan pdf = plan.pdf_path

abbrev pub guarded : Settings → List Text → Option Text → Option Text
guarded cfg disk none = none
guarded cfg disk (some raw) =
    if cfg.inside_root (cfg.resolve raw) && exists (cfg.resolve raw) disk
    then some (cfg.resolve raw)
    else none

unfoldable pub local_path : Settings → List Text → PlanRow → Kind → Option Text
local_path cfg disk plan kind = guarded cfg disk (text_or_none (raw_path plan kind))

-- The `file_id`s of a message: of the largest photo, and of the document.
pub record Sent : Type 0 where
  pub photo : Option Text
  pub document : Option Text

abbrev first_id : Option Text → Option Text → Option Text
first_id none later = later
first_id (some id) later = some id

abbrev or_kept : Option Text → Option Text → Option Text
or_kept none kept = kept
or_kept (some id) kept = some id

unfoldable pub remember_file_id : PlanRow → Kind → Sent → PlanRow
remember_file_id plan png sent = record plan {
  image_file_id = or_kept (text_or_none (first_id sent.photo sent.document)) plan.image_file_id;
}
remember_file_id plan pdf sent = record plan {
  pdf_file_id = or_kept sent.document plan.pdf_file_id;
}

abbrev pub can_send : Settings → List Text → PlanRow → Kind → Bool
can_send cfg disk plan kind =
    is_some (text_or_none (cached_file_id plan kind)) || is_some (local_path cfg disk plan kind)

-- A new generation, whose result is stored in the plan's row.
unfoldable pub render_again : Time → Action Artifacts → PlanRow → Action Bool
unfolding mark_generated
render_again now generate plan = do result ← generate; mark_generated now plan result; pure true

-- `ensure_artifacts`: `generate` is `queue.generate(domain, force=True)`.
unfoldable pub ensure_artifacts : Settings → Time → Action Artifacts → PlanRow → Action Bool
unfolding cached_file_id local_path render_again
ensure_artifacts cfg now generate plan db =
    let rendered = render_again now generate plan db in
    if can_send cfg db.disk plan png && can_send cfg db.disk plan pdf
    then pure true db
    else rendered

-- What aiogram sends.
pub data Input : Type 0 where
  file_id local_file : Text → Input

abbrev pub as_file : Option Text → Option Input
as_file none = none
as_file (some path) = some (local_file path)

abbrev pub input_of : Option Text → Option Text → Option Input
input_of none path = as_file path
input_of (some id) path = some (file_id id)

unfoldable pub input_for : Settings → List Text → PlanRow → Kind → Option Input
unfolding cached_file_id local_path
input_for cfg disk plan kind =
    input_of (text_or_none (cached_file_id plan kind)) (local_path cfg disk plan kind)
