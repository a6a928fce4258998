-- ===== src/Bot/Delivery/Served.antt =====
-- app/bot/delivery.py: the files that leave the disk.
use planmaker.Common.{
  ◌≡◌, refl, ap, ◌∙◌, sym, Bool, true, false, ◌&&◌, Option, none, some, List, if◌then◌else◌,
}
use planmaker.Common.Settings.{Settings}
use planmaker.Common.Text.{Text}
use planmaker.Database.{PlanRow}
use planmaker.Storage.{exists}
use planmaker.Bot.Delivery.{
  Kind, local_file, text_or_none, cached_file_id, raw_path, guarded, input_of, input_for,
  local_path,
}

-- A path inside the storage root that is on the disk.
abbrev pub IsServable : Settings → List Text → Text → Type 0
IsServable cfg disk path = (cfg.inside_root path ≡ true) × (exists path disk ≡ true)

guarded-one :
    (inside there : Bool) (cfg : Settings) (disk : List Text) (found path : Text)
    → cfg.inside_root found ≡ inside
    → exists found disk ≡ there
    → (if inside && there then some found else none) ≡ some path
    → IsServable cfg disk path
guarded-one true true cfg disk found path h k e =
    let same : found ≡ path = cc in
    (ap cfg.inside_root (sym same) ∙ h, ap (λ p. exists p disk) (sym same) ∙ k)
guarded-one true false cfg disk found path h k e = cc
guarded-one false there cfg disk found path h k e = cc

input_of-file :
    (cached found : Option Text) (path : Text)
    → input_of cached found ≡ some (local_file path)
    → (cached ≡ none) × (found ≡ some path)
input_of-file none none path h = cc
input_of-file none (some p) path h = (refl, cc)
input_of-file (some id) found path h = cc

guarded-IsServable :
    (cfg : Settings) (disk : List Text) (raw : Option Text) (path : Text)
    → guarded cfg disk raw ≡ some path
    → IsServable cfg disk path
guarded-IsServable cfg disk none path h = cc
guarded-IsServable cfg disk (some raw) path h =
    guarded-one (cfg.inside_root (cfg.resolve raw)) (exists (cfg.resolve raw) disk) cfg disk
      (cfg.resolve raw) path refl refl h

-- Whatever paths a plan's row holds, only a file inside the storage root that is on the disk is read
-- for sending, and it is sent only where no cached file of Telegram is known.
pub input_for-IsServable :
    (cfg : Settings) (disk : List Text) (plan : PlanRow) (kind : Kind) (path : Text)
    → input_for cfg disk plan kind ≡ some (local_file path)
    → IsServable cfg disk path × (text_or_none (cached_file_id plan kind) ≡ none)
unfolding input_for local_path
input_for-IsServable cfg disk plan kind path h =
    let (uncached, found) =
      input_of-file (text_or_none (cached_file_id plan kind)) (local_path cfg disk plan kind) path
        h in
    (guarded-IsServable cfg disk (text_or_none (raw_path plan kind)) path found, uncached)
