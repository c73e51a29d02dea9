-- ===== src/Tests/Contracts.antt =====
-- The contract, the check of each event, the log of an order, and the modules of the flow.
use p4p.Prelude.{String, strip, ◌≡◌, refl, true, false, none, some, List, [], ◌∷◌, inl, ◌⊎◌, arith}
use p4p.Prelude.Result.{err, ok}
use p4p.Core.Event.{ModuleResultEvent, text}
use p4p.Core.Manifest.{module_class, module_is_payment, by_id, get}
use p4p.Core.Flow.Contract.{
  merged_transitions, extend_contract, replaced_transitions, is_payment_flow_module,
  enabled_payment_flow_module_id, extension_before, sorted_extensions, extend_all,
  build_pilot_order_flow_contract,
}
use p4p.Core.Flow.Base.{FlowContract, applies_to}
use p4p.Core.Flow.Contract.Rules.{allowed}
use p4p.Core.Flow.Contract.Built.{build-allows, build_terminal}
use p4p.Core.Flow.Chain.{Chained-terminal}
use p4p.Core.Flow.Validate.{
  human_trigger_mismatch, metadata_token, contract_phase, trigger_event, latest_matching_event,
  previous_name, check_viewed, check_transition, check_notification, check_human, validate_flow,
  validate_pilot_order_event_flow,
}
use p4p.Core.Flow.Validate.Accepted.{NamesNewest, validate_flow-human}
use p4p.Pilot.Store.Events.{listed_events}
use p4p.Pilot.Modules.{
  payment_module_manifest, effective_payment_module_id, flow_module_ids, effective_flow_module_ids,
}
use p4p.Pilot.Modules.Payment.{TakesPayments, effective_payment_module_id-TakesPayments}
use p4p.Pilot.Record.{record_order_flow_event}
use p4p.Pilot.Record.Logs.{InFlow, record_order_flow_event-InFlow}
use p4p.Tests.{diner, town, store, event, accepted_event, blocked_event, human_event, in_result}

unfoldable pub flow : Unit {0}
unfolding applies_to merged_transitions extend_contract replaced_transitions is_payment_flow_module
    enabled_payment_flow_module_id extension_before sorted_extensions extend_all
    build_pilot_order_flow_contract module_class module_is_payment by_id get metadata_token
    contract_phase trigger_event latest_matching_event previous_name check_viewed check_transition
    check_notification check_human validate_flow validate_pilot_order_event_flow strip
    payment_module_manifest effective_payment_module_id flow_module_ids effective_flow_module_ids
    listed_events
flow = tt

-- The contract of a node with stock and cash.
abbrev contract : FlowContract
contract =
    build_pilot_order_flow_contract [] ("p4p.stock.basic" ∷ "p4p.payment.cash" ∷ []) diner.manifests

contract_tests :
    (allowed contract.transitions none "ORDER_ACCEPTED" ≡ true)
    × (allowed contract.transitions (some "ORDER_VALIDATED") "PAYMENT_REQUIRED" ≡ true)
    × (allowed contract.transitions (some "ORDER_ACCEPTED") "PRINT_SUCCESS_CONFIRMED" ≡ false)
    × (validate_flow contract (accepted_event ∷ []) blocked_event ≡ ok tt)
    × (validate_flow contract (accepted_event ∷ blocked_event ∷ []) human_event ≡ ok tt)
unfolding flow
contract_tests = (refl, refl, refl, refl, refl)

build-allows_example :
    allowed contract.transitions (some "ORDER_VALIDATED") "PAYMENT_REQUIRED" ≡ true
unfolding flow
build-allows_example =
    build-allows [] ("p4p.stock.basic" ∷ "p4p.payment.cash" ∷ []) diner.manifests
      (some "ORDER_VALIDATED") "PAYMENT_REQUIRED"

build_terminal_example :
    allowed contract.transitions (some "ORDER_NEEDS_HUMAN") "PRINT_REQUESTED" ≡ false
build_terminal_example =
    build_terminal [] ("p4p.stock.basic" ∷ "p4p.payment.cash" ∷ []) diner.manifests
      "ORDER_NEEDS_HUMAN" "PRINT_REQUESTED" (inl refl)

Chained-terminal_example : ◌≡◌ {A = List String} [] []
unfolding flow
Chained-terminal_example =
    Chained-terminal [] ("p4p.stock.basic" ∷ "p4p.payment.cash" ∷ []) diner.manifests none
      ("ORDER_ACCEPTED" ∷ "ITEM_NOT_POSSIBLE" ∷ []) [] "ORDER_NEEDS_HUMAN"
      (refl, (refl, (refl, tt))) (inl refl)

-- Two events call for a human; the hand-over has to name the later one.
abbrev paper_then_screen : List ModuleResultEvent
paper_then_screen =
    accepted_event
    ∷ event "PAPER_OUT" "p4p.order.print" in_result
    ∷ event "PRINTER_OFFLINE" "p4p.order.print" in_result
    ∷ []

abbrev handed_over : String → ModuleResultEvent
handed_over trigger =
    event "ORDER_NEEDS_HUMAN" human_event.source_module
      (("contract_phase", text "result") ∷ ("trigger_event", text trigger) ∷ [])

newest_tests :
    (validate_flow contract paper_then_screen (handed_over "PRINTER_OFFLINE") ≡ ok tt)
    × (validate_flow contract paper_then_screen (handed_over "PAPER_OUT")
        ≡ err human_trigger_mismatch)
unfolding flow
newest_tests = (refl, refl)

validate_flow-human_example :
    NamesNewest contract.human_trigger_events paper_then_screen
      (trigger_event (handed_over "PRINTER_OFFLINE"))
unfolding flow
validate_flow-human_example =
    validate_flow-human contract paper_then_screen (handed_over "PRINTER_OFFLINE") refl refl

record_order_flow_event-InFlow_example :
    InFlow diner town "o-1"
      (record_order_flow_event diner town human_event
        (store (accepted_event ∷ blocked_event ∷ []) [])).1
unfolding flow
record_order_flow_event-InFlow_example =
    record_order_flow_event-InFlow diner town "o-1" human_event
      (store (accepted_event ∷ blocked_event ∷ []) []) (omega arith) (refl, (refl, tt))

effective_payment_module_id-TakesPayments_example :
    (effective_payment_module_id diner (store [] []) ≡ "")
    ⊎ TakesPayments diner (effective_payment_module_id diner (store [] []))
effective_payment_module_id-TakesPayments_example =
    effective_payment_module_id-TakesPayments diner (store [] [])
