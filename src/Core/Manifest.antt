-- ===== src/Core/Manifest.antt =====
-- `ModuleManifest` and `ResolvedModules` of p4p_core/modules.py, with the fields that the order
-- flow reads.
use p4p.Prelude.{
  String, ◌==◌, strip, Bool, true, false, Option, none, some, List, [], ◌∷◌, map, member,
  if◌then◌else◌,
}
use p4p.Prelude.Dict.{Dict, lookup, insert, get_or}

pub record ModuleManifest : Type 0 where
  pub module_id : String
  pub provider_id : String
  pub lane : String
  pub visibility : String
  pub blocking_policy : String
  pub readiness : String
  pub input_events : List String
  pub output_events : List String
  pub failure_modes : List String
  pub suggested_fallbacks : Dict (List String)
  -- `raw.get("module_class")`, `raw.get("type")`, `raw.get("entrypoint")`, where they are texts
  pub raw_module_class : Option String
  pub raw_type : Option String
  pub raw_entrypoint : Option String

unfoldable pub fallbacks_for : ModuleManifest → String → List String
fallbacks_for m event_name = get_or event_name m.suggested_fallbacks []

unfoldable pub accepts_event : ModuleManifest → String → Bool
accepts_event m event_name = member event_name m.input_events

unfoldable pub emits_event : ModuleManifest → String → Bool
emits_event m event_name = member event_name m.output_events

unfoldable pub declares_failure_mode : ModuleManifest → String → Bool
declares_failure_mode m event_name = member event_name m.failure_modes

-- `a or b`, where an empty text is false
abbrev or_else : Option String → String → String
or_else none b = b
or_else (some a) b = if a == "" then b else a

-- str(raw.get("module_class") or raw.get("type") or "").strip()
unfoldable pub module_class : ModuleManifest → String
module_class m = strip (or_else m.raw_module_class (or_else m.raw_type ""))

unfoldable pub module_is_payment : ModuleManifest → Bool
unfolding module_class
module_is_payment m = module_class m == "payment"

-- `{manifest.module_id: manifest for manifest in manifests}`: a later manifest replaces an earlier.
pub by_id_from : Dict ModuleManifest → List ModuleManifest → Dict ModuleManifest
by_id_from d [] = d
by_id_from d (m ∷ ms) = by_id_from (insert m.module_id m d) ms

unfoldable pub by_id : List ModuleManifest → Dict ModuleManifest
unfolding by_id_from
by_id ms = by_id_from [] ms

unfoldable pub get : List ModuleManifest → String → Option ModuleManifest
unfolding by_id
get ms module_id = lookup module_id (by_id ms)

unfoldable pub contains : List ModuleManifest → String → Bool
unfolding get
contains ms module_id = elim (get ms module_id) [ none ↦ false | some m ↦ true ]

unfoldable pub module_ids : List ModuleManifest → List String
module_ids ms = map (λ (m : ModuleManifest). m.module_id) ms
