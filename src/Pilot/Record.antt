-- ===== src/Pilot/Record.antt =====
-- How the node makes an event and records it (execution.py): the module's declarations, the
-- metadata, the fields' patterns, the flow contract, and then the insert.
pub mod Logs
pub mod Names
use p4p.Prelude.{
  ℕ, String, ◌==◌, strip, Bool, true, false, not, ◌&&◌, Option, none, some, List, any, same,
  if◌then◌else◌,
}
use p4p.Prelude.Dict.{Dict, lookup, insert}
use p4p.Prelude.Result.{Result, ok, err}
use p4p.Core.Event.{ModuleResultEvent, Value, text, event_is_valid}
use p4p.Core.Manifest.{ModuleManifest, accepts_event, emits_event, declares_failure_mode}
use p4p.Core.Flow.Validate.{
  FlowError, contract_phase_metadata_key, trigger_event_metadata_key,
  validate_pilot_order_event_flow,
}
use p4p.Pilot.Config.{Config, World}
use p4p.Pilot.Store.{
  Store, Exec, Error, flow, undeclared_input, undeclared_output, undeclared_failure,
  reserved_metadata, blank_trigger, trigger_mismatch, invalid_event, pure, ◌>>=◌,
}
use p4p.Pilot.Store.Events.{
  id_or_empty, list_order_events, record_order_event, record_order_event_once,
}
use p4p.Pilot.Modules.{is_some, resolved_runtime_manifest, effective_flow_module_ids}

abbrev pub request_phase : String
request_phase = "request"

abbrev pub result_phase : String
result_phase = "result"

-- The keyword arguments of `build_result_event`.
pub record EventArgs : Type 0 where
  pub event : String
  pub source_module : String
  pub order_id : String
  pub action_id : String
  pub idempotency_key : String
  pub outcome : String
  pub severity : String
  pub retryable : Bool
  pub side_effect_state : String
  pub reason_code : Option String
  pub metadata : Dict Value
  pub phase : String
  pub trigger : Option String

-- What the manifest of the source must declare.
abbrev pub declared : EventArgs → ModuleManifest → Result Error (Unit {0})
declared a m =
    if a.phase == request_phase
    then if accepts_event m a.event then ok tt else err (undeclared_input a.event)
    else if not (emits_event m a.event)
    then err (undeclared_output a.event)
    else if not (a.outcome == "SUCCESS") && not (declares_failure_mode m a.event)
    then err (undeclared_failure a.event)
    else ok tt

abbrev pub declared_by : EventArgs → Result Error (Option ModuleManifest) → Result Error (Unit {0})
declared_by a (err e) = err e
declared_by a (ok none) = ok tt
declared_by a (ok (some m)) = declared a m

-- An existing trigger must be a text that strips to the explicit one.
abbrev trigger_agrees : String → Option Value → Bool
trigger_agrees trigger none = true
trigger_agrees trigger (some (text t)) = strip t == trigger
trigger_agrees trigger (some v) = false

abbrev with_trigger : Dict Value → Option String → Result Error (Dict Value)
with_trigger merged none = ok merged
with_trigger merged (some trigger) =
    let normalized = strip trigger in
    if normalized == ""
    then err blank_trigger
    else if trigger_agrees normalized (lookup trigger_event_metadata_key merged)
    then ok (insert trigger_event_metadata_key (text normalized) merged)
    else err trigger_mismatch

abbrev with_phase : String → Result Error (Dict Value) → Result Error (Dict Value)
with_phase phase (err e) = err e
with_phase phase (ok merged) = ok (insert contract_phase_metadata_key (text phase) merged)

unfoldable pub build_event_metadata :
    String → Dict Value → Option String → Result Error (Dict Value)
build_event_metadata phase metadata trigger =
    if is_some (lookup contract_phase_metadata_key metadata)
    then err reserved_metadata
    else with_phase phase (with_trigger metadata trigger)

abbrev pub event_of : EventArgs → ℕ → Dict Value → ModuleResultEvent
event_of a now metadata = record {
  event = a.event;
  source_module = a.source_module;
  order_id = some a.order_id;
  action_id = a.action_id;
  idempotency_key = some a.idempotency_key;
  outcome = a.outcome;
  reason_code = a.reason_code;
  severity = a.severity;
  retryable = a.retryable;
  side_effect_state = a.side_effect_state;
  timestamp = now;
  metadata = some metadata;
}

abbrev pub checked_event :
    EventArgs → ℕ → Result Error (Dict Value) → Result Error ModuleResultEvent
checked_event a now (err e) = err e
checked_event a now (ok metadata) =
    if event_is_valid (event_of a now metadata)
    then ok (event_of a now metadata)
    else err invalid_event

abbrev pub after_contract : EventArgs → ℕ → Result Error (Unit {0}) → Result Error ModuleResultEvent
after_contract a now (err e) = err e
after_contract a now (ok _) =
    checked_event a now (build_event_metadata a.phase a.metadata a.trigger)

abbrev pub flow_result : Result FlowError (Unit {0}) → Result Error (Unit {0})
flow_result (ok _) = ok tt
flow_result (err e) = err (flow e)

module _ (config : Config) (world : World) where
  unfoldable pub assert_module_event_contract : EventArgs → Result Error (Unit {0})
  unfolding resolved_runtime_manifest
  assert_module_event_contract a = declared_by a (resolved_runtime_manifest config a.source_module)

  unfoldable pub built_event : EventArgs → ℕ → Result Error ModuleResultEvent
  unfolding assert_module_event_contract build_event_metadata
  built_event a now = after_contract a now (assert_module_event_contract a)

  unfoldable pub build_result_event : EventArgs → Exec ModuleResultEvent
  unfolding built_event
  build_result_event a s = (built_event a s.now, s)

  unfoldable pub flow_check :
      List ModuleResultEvent → ModuleResultEvent → Store → Result Error (Unit {0})
  flow_check existing event s = flow_result (
      validate_pilot_order_event_flow world.reference_catalog existing event
        (effective_flow_module_ids config s) config.manifests)

  unfoldable pub record_order_flow_event : ModuleResultEvent → Exec ModuleResultEvent
  unfolding flow_check list_order_events record_order_event
  record_order_flow_event event = do
    existing ← list_order_events (id_or_empty event.order_id)
    checked ← λ s. (flow_check existing event s, s)
    record_order_event event

  abbrev pub has_key : ModuleResultEvent → ModuleResultEvent → Bool
  has_key event existing = same existing.idempotency_key event.idempotency_key

  unfoldable pub record_order_flow_event_once : ModuleResultEvent → Exec ModuleResultEvent
  unfolding flow_check list_order_events record_order_event_once
  record_order_flow_event_once event = do
    existing ← list_order_events (id_or_empty event.order_id)
    if any (has_key event) existing then pure event else do
      checked ← λ s. (flow_check existing event s, s)
      recorded ← record_order_event_once event
      pure event

  -- build_result_event and record_order_flow_event, as the lanes call them together
  unfoldable pub emit : EventArgs → Exec ModuleResultEvent
  unfolding build_result_event record_order_flow_event
  emit a = do event ← build_result_event a; record_order_flow_event event
