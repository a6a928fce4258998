-- ===== src/Render/Registry.antt =====
-- app/rendering/registry.py: the official sheets, by their versions.
use planmaker.Common.{
  Bool, true, false, Option, none, some, List, [], ◌∷◌, if◌then◌else◌, ◌≡◌, refl, arith, inl, inr,
  ◌⊎◌,
}
use planmaker.Common.Text.{Text, codes, text_eq, is_empty}

pub record TemplateInfo : Type 0 where
  pub version : Text
  pub config : Text
  pub active : Bool

abbrev pub first_template : TemplateInfo
first_template = record {
  version = codes "rotbeland-weekly-v1";
  config = codes "template_weekly_v1";
  active = false;
}

abbrev pub default_template : TemplateInfo
default_template = record {
  version = codes "rotbeland-weekly-v2";
  config = codes "template_weekly_v2";
  active = true;
}

-- `TEMPLATES.values()`
abbrev pub available : List TemplateInfo
available = first_template ∷ default_template ∷ []

-- A name that is a version or a config; the default for others.
unfoldable pub resolve_name : Text → TemplateInfo
resolve_name name =
    if is_empty name
    then default_template
    else if text_eq name first_template.version
    then first_template
    else if text_eq name default_template.version
    then default_template
    else if text_eq name first_template.config
    then first_template
    else default_template

unfoldable pub resolve : Option Text → TemplateInfo
unfolding resolve_name
resolve none = default_template
resolve (some name) = resolve_name name

resolve_name-available :
    (name : Text) → (resolve_name name ≡ first_template) ⊎ (resolve_name name ≡ default_template)
unfolding resolve_name
resolve_name-available name = ground arith

-- A plan's version is kept: the version that a name resolves to resolves to itself.
pub resolve-version : (name : Option Text) → resolve (some (resolve name).version) ≡ resolve name
unfolding resolve resolve_name
resolve-version none = refl
resolve-version (some name) = elim (resolve_name-available name) [
  | inl e ↦ rw e refl
  | inr e ↦ rw e refl
]
