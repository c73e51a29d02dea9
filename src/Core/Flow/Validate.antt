-- ===== src/Core/Flow/Validate.antt =====
-- `validate_pilot_order_event_flow`: may this event follow those already recorded for its order?
pub mod Accepted
use p4p.Prelude.{
  String, ◌==◌, strip, Bool, true, false, not, Option, none, some, List, [], ◌∷◌, any, member,
  select, last?, same, if◌then◌else◌,
}
use p4p.Prelude.Dict.{Dict, lookup}
use p4p.Prelude.Result.{Result, ok, err, require, ◌>>◌}
use p4p.Core.Event.{ModuleResultEvent, Value, text}
use p4p.Core.Manifest.{ModuleManifest}
use p4p.Core.Flow.Contract.{build_pilot_order_flow_contract}
use p4p.Core.Flow.Base.{
  FlowContract, rule, customer_status_module_id, notification_result_events, observational_events,
}

-- One constructor for each `raise ValueError` of the function.
pub data FlowError : Type 0 where
  order_id_missing viewed_before_accepted viewed_source viewed_phase : FlowError
  no_transition_rule : Option String → FlowError
  forbidden : String → Option String → FlowError
  wrong_source wrong_phase : String → FlowError
  no_notification_trigger notification_trigger_mismatch : FlowError
  no_human_trigger human_trigger_mismatch : FlowError

abbrev metadata_text : Option Value → Option String
metadata_text (some (text s)) = if strip s == "" then none else some (strip s)
metadata_text _ = none

unfoldable pub metadata_token : ModuleResultEvent → String → Option String
metadata_token e key = elim e.metadata [ none ↦ none | some d ↦ metadata_text (lookup key d) ]

abbrev pub contract_phase_metadata_key : String
contract_phase_metadata_key = "contract_phase"

abbrev pub trigger_event_metadata_key : String
trigger_event_metadata_key = "trigger_event"

unfoldable pub contract_phase : ModuleResultEvent → Option String
unfolding metadata_token
contract_phase e = metadata_token e contract_phase_metadata_key

unfoldable pub trigger_event : ModuleResultEvent → Option String
unfolding metadata_token
trigger_event e = metadata_token e trigger_event_metadata_key

abbrev pub event_name : ModuleResultEvent → String
event_name e = e.event

-- The newest event whose name is in the set: `reversed` and the first hit.
unfoldable pub latest_matching_event :
    List ModuleResultEvent → List String → Option ModuleResultEvent
latest_matching_event [] allowed = none
latest_matching_event (e ∷ es) allowed = elim (latest_matching_event es allowed) [
  | some later ↦ some later
  | none ↦ if member e.event allowed then some e else none
]

abbrev pub is_flow_event : ModuleResultEvent → Bool
is_flow_event e = not (member e.event observational_events)

abbrev pub name_of : Option ModuleResultEvent → Option String
name_of none = none
name_of (some e) = some e.event

-- `previous_name`: None at the start of the flow.
unfoldable pub previous_name : List ModuleResultEvent → Option String
previous_name existing = name_of (last? (select is_flow_event existing))

unfoldable pub check_viewed : List ModuleResultEvent → ModuleResultEvent → Result FlowError Unit
unfolding contract_phase
check_viewed existing next = do
  require (any (λ (e : ModuleResultEvent). e.event == "ORDER_ACCEPTED") existing)
      viewed_before_accepted
  require (next.source_module == customer_status_module_id) viewed_source
  require (same (contract_phase next) (some "result")) viewed_phase

abbrev pub check_allowed : Option (List String) → Option String → String → Result FlowError Unit
check_allowed none previous next = err (no_transition_rule previous)
check_allowed (some allowed) previous next = require (member next allowed) (forbidden next previous)

-- `expected is not None and actual != expected`, negated
abbrev pub meets : Option String → Option String → Bool
meets none actual = true
meets (some expected) actual = same actual (some expected)

unfoldable pub check_transition :
    FlowContract → Option String → ModuleResultEvent → Result FlowError Unit
unfolding contract_phase
check_transition c previous next = do
  check_allowed (rule previous c.transitions) previous next.event
  require (meets (lookup next.event c.expected_sources) (some next.source_module))
      (wrong_source next.event)
  require (meets (lookup next.event c.expected_phases) (contract_phase next))
      (wrong_phase next.event)

unfoldable pub check_notification :
    FlowContract → Option String → ModuleResultEvent → Result FlowError Unit
unfolding trigger_event
check_notification c none next =
    if member next.event notification_result_events then err no_notification_trigger else ok tt
check_notification c (some previous) next =
    if member next.event notification_result_events
    then (do
      require (member previous c.notification_trigger_events) no_notification_trigger
      require (same (trigger_event next) (some previous)) notification_trigger_mismatch)
    else ok tt

abbrev pub check_trigger : Option ModuleResultEvent → Option String → Result FlowError Unit
check_trigger none given = err no_human_trigger
check_trigger (some trigger) given =
    require (same given (some trigger.event)) human_trigger_mismatch

unfoldable pub check_human :
    FlowContract → List ModuleResultEvent → ModuleResultEvent → Result FlowError Unit
unfolding trigger_event latest_matching_event
check_human c existing next =
    if next.event == "ORDER_NEEDS_HUMAN"
    then check_trigger (latest_matching_event existing c.human_trigger_events) (trigger_event next)
    else ok tt

abbrev pub has_order_id : ModuleResultEvent → Bool
has_order_id e = elim e.order_id [ none ↦ false | some i ↦ true ]

unfoldable pub validate_flow :
    FlowContract → List ModuleResultEvent → ModuleResultEvent → Result FlowError Unit
unfolding check_viewed check_transition check_notification check_human previous_name
validate_flow c existing next = do
  require (has_order_id next) order_id_missing
  if next.event == "ORDER_STATUS_VIEWED" then check_viewed existing next else do
    check_transition c (previous_name existing) next
    check_notification c (previous_name existing) next
    check_human c existing next

unfoldable pub validate_pilot_order_event_flow :
    Dict ModuleManifest
    → List ModuleResultEvent
    → ModuleResultEvent
    → List String
    → List ModuleManifest
    → Result FlowError Unit
unfolding validate_flow build_pilot_order_flow_contract
validate_pilot_order_event_flow catalog existing next enabled manifests =
    validate_flow (build_pilot_order_flow_contract catalog enabled manifests) existing next
