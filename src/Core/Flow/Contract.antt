-- ===== src/Core/Flow/Contract.antt =====
-- Flow contracts and the extensions that enabled modules add to them.
pub mod Rules
pub mod Built
use p4p.Prelude.{
  ℕ, String, ◌==◌, Bool, true, false, ◌&&◌, ◌||◌, Option, none, some, List, [], ◌∷◌, ◌++◌, length,
  member, subset, ltb, nat_eq, text_before, if◌then◌else◌,
}
use p4p.Prelude.Dict.{Dict, lookup, update}
use p4p.Core.Manifest.{ModuleManifest, module_is_payment, by_id_from}
use p4p.Core.Flow.Base.{
  order_receiver_module_id, print_module_id, notify_email_module_id, stock_basic_module_id,
  customer_status_module_id, print_failure_events, print_result_events, notification_result_events,
  payment_result_events, observational_events, Transitions, key_eq, rule, set_rule, rule_or_empty,
  FlowContract, FlowExtension, applies_to, notified_or_human, base_transitions,
  base_pilot_order_flow_contract,
}

-- merged[event_name] = merged.get(event_name, frozenset()) | allowed_next, for each addition
unfoldable pub merged_transitions : Transitions → Transitions → Transitions
merged_transitions base [] = base
merged_transitions base ((k, ns) ∷ additions) =
    merged_transitions (set_rule k (rule_or_empty (rule k base) ++ ns) base) additions

-- transitions.update(replacements)
unfoldable pub replaced_transitions : Transitions → Transitions → Transitions
replaced_transitions base [] = base
replaced_transitions base ((k, ns) ∷ replacements) =
    replaced_transitions (set_rule k ns base) replacements

unfoldable pub extend_contract : FlowContract → FlowExtension → FlowContract
unfolding merged_transitions replaced_transitions
extend_contract c e = record {
  transitions =
      merged_transitions (replaced_transitions c.transitions e.replace_transitions)
        e.add_transitions;
  expected_sources = update c.expected_sources e.expected_sources;
  expected_phases = update c.expected_phases e.expected_phases;
  notification_trigger_events = c.notification_trigger_events ++ e.notification_trigger_events;
  human_trigger_events = c.human_trigger_events ++ e.human_trigger_events;
}

abbrev pub stock_flow_extension : FlowExtension
stock_flow_extension = record {
  required_module_ids = stock_basic_module_id ∷ [];
  priority = 100;
  add_transitions =
      (some "ORDER_ACCEPTED", "ORDER_VALIDATED" ∷ "ITEM_NOT_POSSIBLE" ∷ [])
      ∷ (some "ORDER_VALIDATED", "PRINT_REQUESTED" ∷ [])
      ∷ (some "ITEM_NOT_POSSIBLE", "ORDER_NEEDS_HUMAN" ∷ [])
      ∷ [];
  replace_transitions = [];
  expected_sources =
      ("ORDER_VALIDATED", stock_basic_module_id)
      ∷ ("ITEM_NOT_POSSIBLE", stock_basic_module_id)
      ∷ [];
  expected_phases = ("ORDER_VALIDATED", "result") ∷ ("ITEM_NOT_POSSIBLE", "result") ∷ [];
  notification_trigger_events = [];
  human_trigger_events = "ITEM_NOT_POSSIBLE" ∷ [];
}

abbrev pub pilot_order_flow_extensions : List FlowExtension
pilot_order_flow_extensions = stock_flow_extension ∷ []

unfoldable pub is_payment_flow_module : ModuleManifest → Bool
is_payment_flow_module m =
    module_is_payment m
    && member "PAYMENT_REQUIRED" m.input_events
    && subset payment_result_events m.output_events

first_payment_module_id : Dict ModuleManifest → List String → Option String
first_payment_module_id catalog [] = none
first_payment_module_id catalog (module_id ∷ ids) = elim (lookup module_id catalog) [
  | none ↦ first_payment_module_id catalog ids
  | some m ↦
      if is_payment_flow_module m then some module_id else first_payment_module_id catalog ids
]

-- `catalog` is what `load_reference_module_catalog` reads from the manifest files.
unfoldable pub enabled_payment_flow_module_id :
    Dict ModuleManifest → List String → List ModuleManifest → Option String
unfolding first_payment_module_id
enabled_payment_flow_module_id catalog enabled manifests =
    first_payment_module_id (by_id_from catalog manifests) enabled

abbrev pub payment_flow_extension : String → FlowExtension
payment_flow_extension payment_module_id = record {
  required_module_ids = payment_module_id ∷ [];
  priority = 100;
  add_transitions =
      (some "ORDER_ACCEPTED", "PAYMENT_REQUIRED" ∷ [])
      ∷ (some "PAYMENT_REQUIRED", payment_result_events)
      ∷ (some "PAYMENT_MODE_CHANGED", "PRINT_REQUESTED" ∷ [])
      ∷ (some "PAYMENT_FAILED", "ORDER_NEEDS_HUMAN" ∷ [])
      ∷ [];
  replace_transitions = [];
  expected_sources =
      ("PAYMENT_REQUIRED", payment_module_id)
      ∷ ("PAYMENT_MODE_CHANGED", payment_module_id)
      ∷ ("PAYMENT_FAILED", payment_module_id)
      ∷ [];
  expected_phases =
      ("PAYMENT_REQUIRED", "request")
      ∷ ("PAYMENT_MODE_CHANGED", "result")
      ∷ ("PAYMENT_FAILED", "result")
      ∷ [];
  notification_trigger_events = [];
  human_trigger_events = "PAYMENT_FAILED" ∷ [];
}

abbrev pub stock_payment_flow_extension : String → FlowExtension
stock_payment_flow_extension payment_module_id = record {
  required_module_ids = stock_basic_module_id ∷ payment_module_id ∷ [];
  priority = 200;
  add_transitions = (some "ORDER_VALIDATED", "PAYMENT_REQUIRED" ∷ []) ∷ [];
  replace_transitions = [];
  expected_sources = [];
  expected_phases = [];
  notification_trigger_events = [];
  human_trigger_events = [];
}

abbrev pub payment_flow_extensions : Option String → List FlowExtension
payment_flow_extensions none = []
payment_flow_extensions (some m) = payment_flow_extension m ∷ stock_payment_flow_extension m ∷ []

abbrev insert_text : String → List String → List String
insert_text x [] = x ∷ []
insert_text x (y ∷ ys) = if text_before x y then x ∷ y ∷ ys else y ∷ insert_text x ys

abbrev sorted_texts : List String → List String
sorted_texts [] = []
sorted_texts (x ∷ xs) = insert_text x (sorted_texts xs)

-- Tuples of texts, compared item by item.
abbrev texts_before : List String → List String → Bool
texts_before [] [] = false
texts_before [] (y ∷ ys) = true
texts_before (x ∷ xs) [] = false
texts_before (x ∷ xs) (y ∷ ys) = text_before x y || (x == y && texts_before xs ys)

-- The order of `_flow_extension_sort_key`.
unfoldable pub extension_before : FlowExtension → FlowExtension → Bool
extension_before a b =
    ltb a.priority b.priority
    || (nat_eq a.priority b.priority
        && (ltb (length a.required_module_ids) (length b.required_module_ids)
            || (nat_eq (length a.required_module_ids) (length b.required_module_ids)
                && texts_before (sorted_texts a.required_module_ids)
                    (sorted_texts b.required_module_ids))))

-- `sorted` is stable: an extension goes behind those that are before it.
pub insert_extension : FlowExtension → List FlowExtension → List FlowExtension
insert_extension x [] = x ∷ []
insert_extension x (y ∷ ys) = if extension_before y x then y ∷ insert_extension x ys else x ∷ y ∷ ys

unfoldable pub sorted_extensions : List FlowExtension → List FlowExtension
unfolding insert_extension
sorted_extensions [] = []
sorted_extensions (x ∷ xs) = insert_extension x (sorted_extensions xs)

unfoldable pub extend_all : List String → FlowContract → List FlowExtension → FlowContract
extend_all enabled c [] = c
extend_all enabled c (e ∷ es) =
    extend_all enabled (if applies_to enabled e then extend_contract c e else c) es

unfoldable pub build_pilot_order_flow_contract :
    Dict ModuleManifest → List String → List ModuleManifest → FlowContract
unfolding extend_all sorted_extensions enabled_payment_flow_module_id
build_pilot_order_flow_contract catalog enabled manifests =
    extend_all enabled base_pilot_order_flow_contract (
      sorted_extensions (
        pilot_order_flow_extensions
        ++ payment_flow_extensions (enabled_payment_flow_module_id catalog enabled manifests)))
