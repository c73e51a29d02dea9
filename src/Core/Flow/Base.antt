-- ===== src/Core/Flow/Base.antt =====
-- The modules and events that the contract names, and the contract without extensions.
use p4p.Prelude.{
  ℕ, String, ◌==◌, Bool, true, false, Option, none, some, List, [], ◌∷◌, ◌++◌, subset,
  if◌then◌else◌,
}
use p4p.Prelude.Dict.{Dict}

abbrev pub order_receiver_module_id : String
order_receiver_module_id = "p4p.order.receiver"

abbrev pub print_module_id : String
print_module_id = "p4p.order.print"

abbrev pub notify_email_module_id : String
notify_email_module_id = "p4p.notify.email"

abbrev pub stock_basic_module_id : String
stock_basic_module_id = "p4p.stock.basic"

abbrev pub customer_status_module_id : String
customer_status_module_id = "p4p.customer.status"

-- Sets of texts are lists; only membership is read.
abbrev pub print_failure_events : List String
print_failure_events =
    "PRINT_FAILED_PRECHECK" ∷ "PRINT_UNCERTAIN" ∷ "PRINTER_OFFLINE" ∷ "PAPER_LOW" ∷ "PAPER_OUT"
    ∷ "PAPER_JAM" ∷ "PRINT_TIMEOUT" ∷ []

abbrev pub print_result_events : List String
print_result_events = "PRINT_SUCCESS_CONFIRMED" ∷ print_failure_events

abbrev pub notification_result_events : List String
notification_result_events = "NOTIFICATION_SENT" ∷ "NOTIFICATION_FAILED" ∷ []

abbrev pub payment_result_events : List String
payment_result_events = "PAYMENT_MODE_CHANGED" ∷ "PAYMENT_FAILED" ∷ []

abbrev pub observational_events : List String
observational_events = "ORDER_STATUS_VIEWED" ∷ "ORDER_STATUS_UPDATED" ∷ []

-- A dictionary from the previous event, `none` at the start of the flow, to the allowed next ones.
abbrev pub Transitions : Type 0
Transitions = List (Option String × List String)

abbrev pub key_eq : Option String → Option String → Bool
key_eq none none = true
key_eq (some a) (some b) = a == b
key_eq _ _ = false

abbrev pub rule : Option String → Transitions → Option (List String)
rule k [] = none
rule k ((j, ns) ∷ t) = if key_eq j k then some ns else rule k t

abbrev pub set_rule : Option String → List String → Transitions → Transitions
set_rule k ns [] = (k, ns) ∷ []
set_rule k ns ((j, ms) ∷ t) = if key_eq j k then (k, ns) ∷ t else (j, ms) ∷ set_rule k ns t

abbrev pub rule_or_empty : Option (List String) → List String
rule_or_empty none = []
rule_or_empty (some ns) = ns

pub record FlowContract : Type 0 where
  pub transitions : Transitions
  pub expected_sources : Dict String
  pub expected_phases : Dict String
  pub notification_trigger_events : List String
  pub human_trigger_events : List String

pub record FlowExtension : Type 0 where
  pub required_module_ids : List String
  pub add_transitions : Transitions
  pub priority : ℕ
  pub replace_transitions : Transitions
  pub expected_sources : Dict String
  pub expected_phases : Dict String
  pub notification_trigger_events : List String
  pub human_trigger_events : List String

unfoldable pub applies_to : List String → FlowExtension → Bool
applies_to enabled e = subset e.required_module_ids enabled

abbrev pub notified_or_human : List String
notified_or_human = notification_result_events ++ "ORDER_NEEDS_HUMAN" ∷ []

abbrev pub base_transitions : Transitions
base_transitions =
    (none, "ORDER_ACCEPTED" ∷ [])
    ∷ (some "ORDER_ACCEPTED", "PRINT_REQUESTED" ∷ [])
    ∷ (some "PRINT_REQUESTED", print_result_events)
    ∷ (some "PRINT_FAILED_PRECHECK", notified_or_human)
    ∷ (some "PRINT_UNCERTAIN", notified_or_human)
    ∷ (some "PRINTER_OFFLINE", notified_or_human)
    ∷ (some "PAPER_LOW", "ORDER_NEEDS_HUMAN" ∷ [])
    ∷ (some "PAPER_OUT", notified_or_human)
    ∷ (some "PAPER_JAM", "ORDER_NEEDS_HUMAN" ∷ [])
    ∷ (some "PRINT_TIMEOUT", notified_or_human)
    ∷ (some "NOTIFICATION_SENT", "ORDER_NEEDS_HUMAN" ∷ [])
    ∷ (some "NOTIFICATION_FAILED", "ORDER_NEEDS_HUMAN" ∷ [])
    ∷ (some "PRINT_SUCCESS_CONFIRMED", [])
    ∷ (some "ORDER_NEEDS_HUMAN", [])
    ∷ []

abbrev pub base_pilot_order_flow_contract : FlowContract
base_pilot_order_flow_contract = record {
  transitions = base_transitions;
  expected_sources =
      ("ORDER_ACCEPTED", order_receiver_module_id)
      ∷ ("PRINT_REQUESTED", print_module_id)
      ∷ ("PRINT_SUCCESS_CONFIRMED", print_module_id)
      ∷ ("PRINT_FAILED_PRECHECK", print_module_id)
      ∷ ("PRINT_UNCERTAIN", print_module_id)
      ∷ ("PRINTER_OFFLINE", print_module_id)
      ∷ ("PAPER_LOW", print_module_id)
      ∷ ("PAPER_OUT", print_module_id)
      ∷ ("PAPER_JAM", print_module_id)
      ∷ ("PRINT_TIMEOUT", print_module_id)
      ∷ ("NOTIFICATION_SENT", notify_email_module_id)
      ∷ ("NOTIFICATION_FAILED", notify_email_module_id)
      ∷ ("ORDER_NEEDS_HUMAN", order_receiver_module_id)
      ∷ [];
  expected_phases =
      ("ORDER_ACCEPTED", "result")
      ∷ ("PRINT_REQUESTED", "request")
      ∷ ("PRINT_SUCCESS_CONFIRMED", "result")
      ∷ ("PRINT_FAILED_PRECHECK", "result")
      ∷ ("PRINT_UNCERTAIN", "result")
      ∷ ("PRINTER_OFFLINE", "result")
      ∷ ("PAPER_LOW", "result")
      ∷ ("PAPER_OUT", "result")
      ∷ ("PAPER_JAM", "result")
      ∷ ("PRINT_TIMEOUT", "result")
      ∷ ("NOTIFICATION_SENT", "result")
      ∷ ("NOTIFICATION_FAILED", "result")
      ∷ ("ORDER_NEEDS_HUMAN", "result")
      ∷ [];
  notification_trigger_events = print_failure_events;
  human_trigger_events = print_failure_events;
}
