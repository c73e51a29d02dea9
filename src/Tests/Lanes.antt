-- ===== src/Tests/Lanes.antt =====
-- The lanes: what they record, which way they go, and a retry.
use p4p.Prelude.{
  concat, String, strip, lower, ◌≡◌, refl, true, false, none, some, [], ◌∷◌, inl, ◌≤◌, ◌++◌,
}
use p4p.Prelude.Result.{ok, err}
use p4p.Core.Event.{text, event_is_valid, is_event_name, is_reason_code, is_module_id, is_outcome}
use p4p.Core.Manifest.{accepts_event, emits_event, declares_failure_mode, contains}
use p4p.Pilot.Order.{StoredOrder}
use p4p.Pilot.Config.{Config}
use p4p.Pilot.Store.{value_error, Store, Error, failed, unknown, ◌>>=◌}
use p4p.Pilot.Store.Orders.{with_status, update_order_status, update_order_payment_method}
use p4p.Pilot.Store.Events.{list_order_events, record_order_event}
use p4p.Pilot.Modules.{
  hardware_profile_metadata, module_enabled, module_supports_fallback, resolved_runtime_manifest,
  module_metadata,
}
use p4p.Pilot.Record.{
  assert_module_event_contract, build_event_metadata, built_event, build_result_event, flow_check,
  record_order_flow_event, emit,
}
use p4p.Pilot.Record.Logs.{emit-closed}
use p4p.Pilot.Print.Adapter.{decide, build_print_adapter}
use p4p.Pilot.Print.Driver.{deliver, build_print_driver}
use p4p.Pilot.Print.Sensor.{
  build_print_sensor, normalize_sensor_state, observe, precheck, postcheck,
}
use p4p.Pilot.Lanes.Common.{accepted_with, order_amount, tagged}
use p4p.Pilot.Lanes.Stock.{
  unavailable_items, stock_mode, stock_blocks, order_validated, execute_stock_lane,
}
use p4p.Pilot.Lanes.Cash.{cash_mode, cash_fails, execute_payment_cash_module}
use p4p.Pilot.Lanes.Godpay.{godpay_roll, godpay_accepts, execute_godpay_mock_module}
use p4p.Pilot.Lanes.External.{
  external_payment_manifest, exchange, conclude, run_external, execute_external_payment_module,
}
use p4p.Pilot.Lanes.Reply.{
  external_payment_url_error, payment_event_payload, payment_event_name, safe_payment_outcome,
  safe_side_effect_state, payment_reason_code, safe_event, safe_outcome, changed,
}
use p4p.Pilot.Lanes.Outcomes.{IsExchanged, execute_external_payment_module-allows}
use p4p.Pilot.Lanes.Decisions.{Decided}
use p4p.Pilot.Lanes.Decisions.Stock.{IsAvailable, execute_stock_lane-decides}
use p4p.Pilot.Lanes.Decisions.Payments.{
  IsPayable, execute_payment_cash_module-decides, execute_godpay_mock_module-decides,
}
use p4p.Pilot.Lanes.Print.Events.{
  build_print_precheck_event, build_print_postcheck_event, build_print_result_event,
}
use p4p.Pilot.Lanes.Print.{
  fallback, build_notification_result_event, notify, hand_over, print_with, execute_print_lane,
}
use p4p.Pilot.Store.Adds.{event_names}
use p4p.Pilot.Process.{execute_durable_lane}
use p4p.Pilot.Process.Durable.{status_of}
use p4p.Pilot.Process.Retry.{stock-retry-unknown}
use p4p.Tests.{
  event, in_result, node, cash_manifest, godpay_manifest, remote_manifest, diner, town, store,
  order, order_for, accepted_event, blocked_event, human_event, action,
}
use p4p.Tests.Contracts.{flow}

lanes : Unit {0}
unfolding flow ◌>>=◌ strip lower concat event_is_valid is_event_name is_reason_code is_module_id
    is_outcome accepts_event emits_event declares_failure_mode contains update_order_status
    update_order_payment_method list_order_events record_order_event resolved_runtime_manifest
    module_metadata assert_module_event_contract build_event_metadata built_event build_result_event
    flow_check record_order_flow_event emit order_amount tagged unavailable_items stock_mode
    stock_blocks execute_stock_lane cash_mode cash_fails execute_payment_cash_module godpay_roll
    godpay_accepts execute_godpay_mock_module external_payment_url_error payment_event_payload
    payment_event_name safe_payment_outcome safe_side_effect_state payment_reason_code safe_event
    safe_outcome changed external_payment_manifest exchange conclude run_external
    execute_external_payment_module decide deliver build_print_precheck_event
    build_print_postcheck_event build_print_result_event fallback build_notification_result_event
    notify hand_over print_with execute_print_lane build_print_adapter build_print_driver
    build_print_sensor normalize_sensor_state observe precheck postcheck hardware_profile_metadata
    module_enabled module_supports_fallback
lanes = tt

-- The order is accepted, and it was then blocked and given to a human.
abbrev begun : Store
begun = store (accepted_event ∷ []) []

abbrev given_up : Store
given_up = store (accepted_event ∷ blocked_event ∷ human_event ∷ []) (action failed ∷ [])

abbrev after : String → StoredOrder
after message = with_status 100 (accepted_with message) order

abbrev soup : StoredOrder
soup = order_for "o-1" (record { id = "soup"; quantity = 1 } ∷ [])

-- An order goes on; one with an item that is not to be had does not.
lane_tests :
    ((execute_stock_lane diner town order begun).0
      ≡ ok (after "Order accepted. Stock validated.", true))
    × ((execute_stock_lane diner town soup begun).0
        ≡ ok (after "Order accepted. Stock check needs human attention.", false))
unfolding lanes
lane_tests = (refl, refl)

execute_stock_lane-decides_example :
    Decided
      (IsAvailable diner soup)
      ("ORDER_VALIDATED" ∷ [])
      ("ITEM_NOT_POSSIBLE" ∷ "ORDER_NEEDS_HUMAN" ∷ [])
      begun
      (execute_stock_lane diner town soup begun).1
      (after "Order accepted. Stock check needs human attention.", false)
unfolding lanes
execute_stock_lane-decides_example =
    execute_stock_lane-decides diner town soup begun
      {r = (after "Order accepted. Stock check needs human attention.", false)} refl

abbrev cash_node : Config
cash_node = node (cash_manifest ∷ []) "p4p.payment.cash"

-- One mode after the other.
abbrev cash_in : String → Config
cash_in mode = record cash_node { payment_cash_mode = mode }

cash_tests :
    (cash_fails (cash_in "Failed ") ≡ true)
    × ((cash_fails (cash_in "unavailable") ≡ true)
        × ((cash_fails (cash_in "payment_failed") ≡ true) × (cash_fails (cash_in "") ≡ false)))
unfolding lanes
cash_tests = (refl, (refl, (refl, refl)))

execute_payment_cash_module-decides_example :
    Decided
      (IsPayable cash_node)
      ("PAYMENT_REQUIRED" ∷ "PAYMENT_MODE_CHANGED" ∷ [])
      ("PAYMENT_REQUIRED" ∷ "PAYMENT_FAILED" ∷ "ORDER_NEEDS_HUMAN" ∷ [])
      begun
      (execute_payment_cash_module cash_node town order begun).1
      (after "Order accepted. Payment set to pay at pickup.", true)
unfolding lanes
execute_payment_cash_module-decides_example =
    execute_payment_cash_module-decides cash_node town order begun
      {r = (after "Order accepted. Payment set to pay at pickup.", true)} refl

abbrev godpay_node : Config
godpay_node = node (godpay_manifest ∷ []) "p4p.payment.godpay-mock"

-- A roll that is the threshold.
abbrev at_threshold : Config
at_threshold = record godpay_node { godpay_force_roll = some godpay_node.godpay_success_threshold }

execute_godpay_mock_module-decides_example :
    Decided
      (at_threshold.godpay_success_threshold ≤ at_threshold.godpay_success_threshold)
      ("PAYMENT_REQUIRED" ∷ "PAYMENT_MODE_CHANGED" ∷ [])
      ("PAYMENT_REQUIRED" ∷ "PAYMENT_FAILED" ∷ "ORDER_NEEDS_HUMAN" ∷ [])
      begun
      (execute_godpay_mock_module at_threshold town order begun).1
      (
        record (after "The pizza gods accepted the offering.") { payment_method = "godpay_mock" },
        true,
      )
unfolding lanes
execute_godpay_mock_module-decides_example =
    execute_godpay_mock_module-decides at_threshold town order at_threshold.godpay_success_threshold
      begun
      {r = (
        record (after "The pizza gods accepted the offering.") { payment_method = "godpay_mock" },
        true,
      )}
      (inl refl) refl

emit-closed_example :
    (x : Error) × (emit diner town (order_validated diner order []) given_up ≡ (err x, given_up))
unfolding lanes
emit-closed_example =
    emit-closed diner town (order_validated diner order []) given_up refl
      ("ORDER_NEEDS_HUMAN", (refl, inl refl))

stock-retry-unknown_example :
    (x : Error) × (((execute_durable_lane "stock" "outbox:o-1:stock:basic"
          (execute_stock_lane diner town)
          order
          given_up).0
        ≡ err x)
      × (status_of "outbox:o-1:stock:basic"
            (execute_durable_lane "stock" "outbox:o-1:stock:basic"
              (execute_stock_lane diner town)
              order
              given_up).1
          ≡ some unknown))
unfolding lanes
stock-retry-unknown_example =
    stock-retry-unknown diner town "outbox:o-1:stock:basic" order given_up {a = action failed} refl
      (refl, refl) refl ("ORDER_NEEDS_HUMAN", (refl, inl refl))

-- An order that is paid for, on a printer that works and on one without paper.
abbrev paid : Store
paid =
    store
      (accepted_event
        ∷ event "ORDER_VALIDATED" "p4p.stock.basic" in_result
        ∷ event "PAYMENT_REQUIRED" "p4p.payment.cash" (("contract_phase", text "request") ∷ [])
        ∷ event "PAYMENT_MODE_CHANGED" "p4p.payment.cash" in_result
        ∷ [])
      []

abbrev out_of_paper : Config
out_of_paper = record diner { print_sensor_precheck = "paper_out" }

print_tests :
    (event_names (execute_print_lane diner town order paid).1
      ≡ event_names paid ++ "PRINT_REQUESTED" ∷ "PRINT_SUCCESS_CONFIRMED" ∷ [])
    × (event_names (execute_print_lane out_of_paper town order paid).1
        ≡ event_names paid ++ "PRINT_REQUESTED" ∷ "PAPER_OUT" ∷ "ORDER_NEEDS_HUMAN" ∷ [])
unfolding lanes
print_tests = (refl, refl)

-- A URL that cannot be split.
malformed_test : external_payment_url_error town "https://[" ≡ err value_error
unfolding lanes
malformed_test = refl

abbrev remote : Config
remote = node (remote_manifest ∷ []) "p4p.payment.remote"

execute_external_payment_module-allows_example :
    (external_payment_url_error town "https://pay.example/v1" ≡ ok none)
    × ((true ≡ true)
        × IsExchanged remote town "https://pay.example/v1"
            (town.post_create "https://pay.example/v1"))
unfolding lanes
execute_external_payment_module-allows_example =
    execute_external_payment_module-allows remote town order "p4p.payment.remote" remote_manifest
      begun
      {r = (
        record (after "Order accepted. External payment confirmed.") {
          payment_method = "external_test_payment";
        },
        true,
      )}
      refl refl refl
