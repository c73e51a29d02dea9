-- ===== src/Tests.antt =====
-- A small restaurant on which the tests and the examples run.
pub mod Branches
pub mod Contracts
pub mod Orders
pub mod Lanes
pub mod Limits
pub mod Registry
pub mod Mirrors
use p4p.Prelude.{
  ℕ, String, Bool, true, false, Option, none, some, List, [], ◌∷◌, concat, if◌then◌else◌, ◌==◌,
}
use p4p.Prelude.Dict.{Dict}
use p4p.Core.Manifest.{ModuleManifest}
use p4p.Core.Event.{ModuleResultEvent, Value, text}
use p4p.Pilot.Order.{
  new, accepted, OrderItem, OrderRequest, StoredOrder, OrderRow, MenuRow, OrderPricingSnapshot,
}
use p4p.Pilot.Config.{Config, World, UrlParts, PaymentPayload, PostResult, request_failed, replied}
use p4p.Pilot.Store.{Store, OrderAction, ActionStatus, no_error}

abbrev pub manifest :
    String → String → List String → List String → List String → Option String → ModuleManifest
manifest id lane inputs outputs failures entrypoint = record {
  module_id = id;
  provider_id = "p4p";
  lane = lane;
  visibility = "operator";
  blocking_policy = "blocking";
  readiness = "ready";
  input_events = inputs;
  output_events = outputs;
  failure_modes = failures;
  suggested_fallbacks = [];
  raw_module_class = some lane;
  raw_type = none;
  raw_entrypoint = entrypoint;
}

abbrev pub stock_manifest : ModuleManifest
stock_manifest =
    manifest "p4p.stock.basic" "stock" ("ORDER_ACCEPTED" ∷ [])
      ("ORDER_VALIDATED" ∷ "ITEM_NOT_POSSIBLE" ∷ []) ("ITEM_NOT_POSSIBLE" ∷ []) none

abbrev pub payment_results : List String
payment_results = "PAYMENT_MODE_CHANGED" ∷ "PAYMENT_FAILED" ∷ []

abbrev pub cash_manifest : ModuleManifest
cash_manifest =
    manifest "p4p.payment.cash" "payment" ("PAYMENT_REQUIRED" ∷ []) payment_results
      ("PAYMENT_FAILED" ∷ []) none

abbrev pub godpay_manifest : ModuleManifest
godpay_manifest =
    manifest "p4p.payment.godpay-mock" "payment" ("PAYMENT_REQUIRED" ∷ []) payment_results
      ("PAYMENT_FAILED" ∷ []) none

abbrev pub remote_manifest : ModuleManifest
remote_manifest =
    manifest "p4p.payment.remote" "payment" ("PAYMENT_REQUIRED" ∷ []) payment_results
      ("PAYMENT_FAILED" ∷ []) (some "https://pay.example/v1")

abbrev pub print_manifest : ModuleManifest
print_manifest =
    manifest "p4p.order.print" "print" ("PRINT_REQUESTED" ∷ [])
      ("PRINT_SUCCESS_CONFIRMED" ∷ "PAPER_OUT" ∷ []) ("PAPER_OUT" ∷ []) none

-- The node with these manifests and this payment module.
abbrev pub node : List ModuleManifest → String → Config
node manifests payment_module_id = record {
  node_id = "node-1";
  node_order_mode_default = "test";
  node_open_default = true;
  manual_order_acceptance_required = false;
  persistent_database = true;
  persistent_node_identity = true;
  strong_operator_token = true;
  manifests = manifests;
  payment_module_id = payment_module_id;
  hardware_profile = "default";
  hardware_profile_customized = false;
  stock_unavailable_item_ids = "soup" ∷ [];
  stock_module_mode = "";
  payment_cash_mode = "";
  godpay_force_roll = some 40;
  godpay_success_threshold = 50;
  payment_external_url = "";
  payment_external_merchant_id = "m-1";
  payment_external_currency = "EUR";
  payment_external_customer_user_id = "u-1";
  payment_external_auto_confirm = true;
  print_module_mode = "confirmed";
  print_module_target = "printer";
  print_module_driver = "simulated";
  print_spool_dir = "";
  print_device_path = "";
  print_escpos_cut_mode = "";
  print_sensor_source = "simulated";
  print_sensor_status_path = "";
  print_sensor_serial_path = "";
  print_sensor_precheck = "ok";
  print_sensor_postcheck = "confirmed";
  notify_email_mode = "sent";
  menu_currency = "EUR";
  order_max_lines = 5;
  order_max_units = 10;
  order_max_value_minor = 5000;
  order_max_active = 20;
  order_max_pending = 10;
  order_max_pending_per_contact = 2;
}

abbrev pub diner : Config
diner =
    node (stock_manifest ∷ cash_manifest ∷ godpay_manifest ∷ remote_manifest ∷ print_manifest ∷ [])
      "p4p.payment.cash"

abbrev pub paid : PaymentPayload
paid = record { fields = ("payment_id", "pay-7") ∷ ("status", "confirmed") ∷ []; event = none }

abbrev pub town : World
town = record {
  reference_catalog = [];
  order_request_fingerprint = λ p. p.note;
  godpay_draw = λ id. 7;
  isoformat = λ n. "now";
  urlsplit = λ u.
      if u == "https://["
      then none
      else some (record { scheme = "https"; netloc = "pay.example"; hostname = "pay.example" });
  post_create = λ u. replied paid;
  post_confirm = λ u i. replied paid;
  status_file = none;
  serial_lines = none;
  ticket_path = λ d i. d;
  path_text = λ p. p;
  spool_write = λ i. none;
  device_write = λ i. none;
}

abbrev pub menu : List MenuRow
menu =
    record {
      id = "pizza";
      name = "Pizza";
      description = "";
      price = 900;
      category = "main";
      active = true;
      image_url = "";
      sort_order = 0;
    }
    ∷ []

abbrev pub request : OrderRequest
request = record {
  client_request_id = "r-1";
  customer_name = "Ann";
  customer_contact = "ann@example.org";
  fulfillment = "pickup";
  items = record { id = "pizza"; quantity = 2 } ∷ [];
  note = "no olives";
  client_version = "1";
}

abbrev pub order_for : String → List OrderItem → StoredOrder
order_for order_id items = record {
  order_id = order_id;
  client_request_id = "r-0";
  status_token = "t-0";
  customer_name = "Bob";
  customer_contact = "bob@example.org";
  fulfillment = "pickup";
  items = items;
  pricing_snapshot = none;
  note = "";
  client_version = "1";
  status = accepted;
  payment_method = "pay_at_pickup";
  status_message = none;
  requested_at = 0;
  updated_at = 0;
  estimated_ready = none;
}

abbrev pub order : StoredOrder
order = order_for "o-1" (record { id = "pizza"; quantity = 2 } ∷ [])

-- An event of the order "o-1", with a phase and perhaps a trigger.
abbrev pub event : String → String → Dict Value → ModuleResultEvent
event name source metadata = record {
  event = name;
  source_module = source;
  order_id = some "o-1";
  action_id = "order:o-1:step";
  idempotency_key = none;
  outcome = "SUCCESS";
  reason_code = none;
  severity = "low";
  retryable = false;
  side_effect_state = "none";
  timestamp = 0;
  metadata = some metadata;
}

abbrev pub in_result : Dict Value
in_result = ("contract_phase", text "result") ∷ []

abbrev pub accepted_event : ModuleResultEvent
accepted_event = event "ORDER_ACCEPTED" "p4p.order.receiver" in_result

abbrev pub blocked_event : ModuleResultEvent
blocked_event = event "ITEM_NOT_POSSIBLE" "p4p.stock.basic" in_result

abbrev pub human_event : ModuleResultEvent
human_event =
    event "ORDER_NEEDS_HUMAN" "p4p.order.receiver"
      (("contract_phase", text "result") ∷ ("trigger_event", text "ITEM_NOT_POSSIBLE") ∷ [])

abbrev pub action : ActionStatus → OrderAction
action status = record {
  action_id = "outbox:o-1:stock:basic";
  order_id = "o-1";
  lane = "stock";
  status = status;
  attempts = 1;
  last_error = no_error;
  created_at = 0;
  updated_at = 0;
}

abbrev pub store : List ModuleResultEvent → List OrderAction → Store
store events outbox = record {
  state = [];
  menu_items = menu;
  orders = record { order = order; request_fingerprint = "" } ∷ [];
  order_events = events;
  order_event_receipts = [];
  outbox = outbox;
  now = 100;
}
