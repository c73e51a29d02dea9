-- ===== src/Pilot/Modules.antt =====
-- Which modules a node runs (runtime.py): the payment module in effect, and those of the flow.
pub mod Payment
use p4p.Prelude.{
  String, ◌==◌, strip, Bool, true, false, not, ◌&&◌, ◌||◌, Option, none, some, List, [], ◌∷◌,
  member, if◌then◌else◌,
}
use p4p.Prelude.Dict.{Dict, get_or}
use p4p.Prelude.Result.{Result, ok, err}
use p4p.Core.Event.{Value, text, flag}
use p4p.Core.Manifest.{
  ModuleManifest, get, contains, module_is_payment, fallbacks_for, accepts_event,
}
use p4p.Core.Flow.Base.{order_receiver_module_id}
use p4p.Pilot.Config.{Config}
use p4p.Pilot.Store.{Store, Error, http, unknown_runtime_module, Exec, set_state}

abbrev pub active_payment_module_state_key : String
active_payment_module_state_key = "payment_module_id"

abbrev pub is_some {ℓ} : {A : Type ℓ} → Option A → Bool
is_some none = false
is_some (some a) = true

module _ (config : Config) where
  unfoldable pub module_enabled : String → Bool
  module_enabled module_id = contains config.manifests module_id

  abbrev pub payment_only : Option ModuleManifest → Option ModuleManifest
  payment_only none = none
  payment_only (some m) = if module_is_payment m then some m else none

  unfoldable pub payment_module_manifest : String → Option ModuleManifest
  payment_module_manifest module_id =
      let normalized = strip module_id in
      if normalized == "" then none else payment_only (get config.manifests normalized)

  unfoldable pub effective_payment_module_id : Store → String
  unfolding payment_module_manifest
  effective_payment_module_id s =
      let persisted = strip (get_or active_payment_module_state_key s.state "") in
      let configured = strip config.payment_module_id in
      if is_some (payment_module_manifest persisted)
      then persisted
      else if is_some (payment_module_manifest configured)
      then configured
      else ""

  -- Of the payment modules only the one in effect is part of the flow.
  unfoldable pub flow_module_ids : String → List ModuleManifest → List String
  flow_module_ids active [] = []
  flow_module_ids active (m ∷ ms) =
      let rest = flow_module_ids active ms in
      if module_is_payment m && (active == "" || not (m.module_id == active))
      then rest
      else m.module_id ∷ rest

  unfoldable pub effective_flow_module_ids : Store → List String
  unfolding flow_module_ids effective_payment_module_id
  effective_flow_module_ids s = flow_module_ids (effective_payment_module_id s) config.manifests

  abbrev choose_payment_module : String → Option ModuleManifest → Exec String
  choose_payment_module id none s = (err (http 400), s)
  choose_payment_module id (some m) s =
      if module_is_payment m
      then (ok id, (set_state active_payment_module_state_key id s).1)
      else (err (http 400), s)

  unfoldable pub set_effective_payment_module_id : String → Exec String
  unfolding set_state
  set_effective_payment_module_id module_id s =
      let normalized = strip module_id in
      if normalized == ""
      then (err (http 400), s)
      else choose_payment_module normalized (get config.manifests normalized) s

  abbrev internal_or_unknown : String → Option ModuleManifest → Result Error (Option ModuleManifest)
  internal_or_unknown module_id (some m) = ok (some m)
  internal_or_unknown module_id none =
      if module_id == order_receiver_module_id
      then ok none
      else err (unknown_runtime_module module_id)

  unfoldable pub resolved_runtime_manifest : String → Result Error (Option ModuleManifest)
  resolved_runtime_manifest module_id =
      internal_or_unknown module_id (get config.manifests module_id)

  abbrev metadata_of : Result Error (Option ModuleManifest) → Result Error (Dict Value)
  metadata_of (err e) = err e
  metadata_of (ok none) = ok []
  metadata_of (ok (some m)) = ok (
      ("module_provider", text m.provider_id)
      ∷ ("module_lane", text m.lane)
      ∷ ("module_visibility", text m.visibility)
      ∷ ("module_blocking_policy", text m.blocking_policy)
      ∷ ("module_readiness", text m.readiness)
      ∷ [])

  unfoldable pub module_metadata : String → Result Error (Dict Value)
  unfolding resolved_runtime_manifest
  module_metadata module_id = metadata_of (resolved_runtime_manifest module_id)

  abbrev fallback_between :
      String
      → String
      → Result Error (Option ModuleManifest)
      → Result Error (Option ModuleManifest)
      → Result Error Bool
  fallback_between event_name fallback_id (err e) _ = err e
  fallback_between event_name fallback_id (ok m) (err e) = err e
  fallback_between event_name fallback_id (ok none) (ok f) = ok false
  fallback_between event_name fallback_id (ok (some m)) (ok none) = ok false
  fallback_between event_name fallback_id (ok (some m)) (ok (some f)) =
      ok (member fallback_id (fallbacks_for m event_name) && accepts_event f event_name)

  unfoldable pub module_supports_fallback : String → String → String → Result Error Bool
  unfolding resolved_runtime_manifest
  module_supports_fallback module_id event_name fallback_module_id =
      fallback_between event_name fallback_module_id (resolved_runtime_manifest module_id)
        (resolved_runtime_manifest fallback_module_id)

  unfoldable pub hardware_profile_metadata : Dict Value
  hardware_profile_metadata =
      ("hardware_profile", text config.hardware_profile)
      ∷ ("hardware_profile_customized", flag config.hardware_profile_customized)
      ∷ []
