-- ===== src/Pilot/Lanes/Print/Events.antt =====
-- The events that the print lane builds: before the print, the print's result, after the print.
use p4p.Prelude.{
  String, ◌==◌, true, false, Bool, not, none, some, Option, [], ◌∷◌, ◌++◌, member, if◌then◌else◌,
}
use p4p.Prelude.Dict.{Dict, insert, update}
use p4p.Core.Event.{Value, text}
use p4p.Pilot.Order.{StoredOrder}
use p4p.Pilot.Config.{Config, World}
use p4p.Pilot.Record.{EventArgs, result_phase}
use p4p.Pilot.Print.Adapter.{PrintAdapter, PrintAdapterDecision, printer, screen, target_id, decide}
use p4p.Pilot.Print.Sensor.{PrintSensorObservation}
use p4p.Pilot.Print.Driver.{
  PrintDriver, PrintDriverResult, simulated, file_spool, device_path, escpos_raw, driver_id,
  deliver,
}
use p4p.Pilot.Lanes.Common.{tagged}

abbrev pub print_module_id : String
print_module_id = "p4p.order.print"

-- An event of the print module, with its action id and key; no trigger.
abbrev pub print_event :
    StoredOrder → String → String → Option String → String → Bool → String → Dict Value → EventArgs
print_event order event outcome reason severity retryable side_effect metadata = record {
  event = event;
  source_module = print_module_id;
  order_id = order.order_id;
  action_id = tagged "order" order.order_id "print:primary";
  idempotency_key = tagged "print" order.order_id "primary";
  outcome = outcome;
  severity = severity;
  retryable = retryable;
  side_effect_state = side_effect;
  reason_code = reason;
  metadata = metadata;
  phase = result_phase;
  trigger = none;
}

abbrev pub no_problem : String → Bool
no_problem state = member state ("" ∷ "ok" ∷ "confirmed" ∷ [])

abbrev or_ok : String → String
or_ok state = if state == "" then "ok" else state

abbrev pub precheck_metadata : PrintAdapter → PrintSensorObservation → Dict Value → Dict Value
precheck_metadata adapter seen base =
    update
      (base
        ++ ("adapter_target", text (target_id adapter))
          ∷ ("sensor_phase", text "precheck")
          ∷ ("sensor_precheck", text (or_ok seen.state))
          ∷ [])
      seen.metadata

abbrev pub precheck_problem : StoredOrder → String → Dict Value → EventArgs
precheck_problem order state metadata =
    if state == "paper_out"
    then print_event order "PAPER_OUT" "FAILED_PERMANENT" (some "PAPER_OUT") "high" false "none"
        metadata
    else if state == "paper_low"
    then print_event order "PAPER_LOW" "NEEDS_HUMAN" (some "PAPER_LOW") "medium" false "none"
        metadata
    else if member state ("offline" ∷ "printer_offline" ∷ [])
    then print_event order "PRINTER_OFFLINE" "UNAVAILABLE" (some "SENSOR_PRINTER_OFFLINE") "high"
        true "none" metadata
    else print_event order "PRINT_FAILED_PRECHECK" "FAILED_PERMANENT"
        (some "PRECHECK_SENSOR_BLOCKED") "high" false "none" metadata

-- The arguments of the event that the function builds, if it builds one; the same below.
unfoldable pub build_print_precheck_event :
    PrintAdapter → PrintSensorObservation → StoredOrder → Dict Value → Option EventArgs
build_print_precheck_event screen seen order base = none
build_print_precheck_event printer seen order base =
    if no_problem seen.state
    then none
    else some (precheck_problem order seen.state (precheck_metadata printer seen base))

abbrev postcheck_reason : String → String
postcheck_reason state =
    if state == "paper_out"
    then "POSTCHECK_PAPER_OUT"
    else if state == "uncertain"
    then "POSTCHECK_UNCERTAIN"
    else if state == "exit_missing"
    then "TICKET_EXIT_NOT_SEEN"
    else "POSTCHECK_SENSOR_UNSUPPORTED"

unfoldable pub build_print_postcheck_event :
    PrintAdapter → PrintSensorObservation → StoredOrder → Dict Value → Option EventArgs
build_print_postcheck_event screen seen order metadata = none
build_print_postcheck_event printer seen order metadata =
    if no_problem seen.state
    then none
    else some (
        print_event order "PRINT_UNCERTAIN" "TIMEOUT_UNKNOWN" (some (postcheck_reason seen.state))
          "high" false "unknown"
          (update
            (insert "sensor_postcheck" (text seen.state)
              (insert "sensor_phase" (text "postcheck") metadata))
            seen.metadata))

abbrev delivery_note : PrintDriver → String
delivery_note simulated = "simulated"
delivery_note file_spool = "artifact_written"
delivery_note device_path = "device_written"
delivery_note escpos_raw = "device_written"

abbrev pub result_metadata :
    PrintAdapter
    → PrintDriver
    → String
    → PrintSensorObservation
    → Dict Value
    → Dict Value
    → Dict Value
result_metadata adapter driver mode seen base extra =
    update
      (update
        (base
          ++ ("adapter_target", text (target_id adapter))
            ∷ ("print_driver", text (driver_id driver))
            ∷ ("configured_mode", text (if mode == "" then "confirmed" else mode))
            ∷ ("sensor_postcheck", text seen.state)
            ∷ [])
        seen.metadata)
      extra

abbrev pub decided : StoredOrder → PrintAdapterDecision → Dict Value → EventArgs
decided order d metadata =
    print_event order d.event d.outcome d.reason_code d.severity d.retryable d.side_effect_state
      metadata

abbrev pub after_postcheck : EventArgs → Option EventArgs → EventArgs
after_postcheck ok_event none = ok_event
after_postcheck ok_event (some problem) = problem

abbrev pub after_delivery :
    PrintAdapter
    → PrintDriver
    → PrintSensorObservation
    → StoredOrder
    → PrintAdapterDecision
    → Dict Value
    → PrintDriverResult
    → EventArgs
after_delivery adapter driver seen order decision metadata r =
    if not r.success
    then print_event order "PRINT_FAILED_PRECHECK" r.outcome r.reason_code r.severity r.retryable
        r.side_effect_state (update metadata r.metadata)
    else let delivered =
        insert "side_effect_delivery" (text (delivery_note driver)) (update metadata r.metadata) in
      after_postcheck (decided order decision delivered)
        (build_print_postcheck_event adapter seen order delivered)

module _ (config : Config) (world : World) where
  abbrev pub concluded :
      PrintAdapter
      → PrintDriver
      → PrintSensorObservation
      → StoredOrder
      → PrintAdapterDecision
      → Dict Value
      → EventArgs
  concluded adapter driver seen order decision metadata =
      if decision.event == "PRINT_SUCCESS_CONFIRMED"
      then after_delivery adapter driver seen order decision metadata
          (deliver config world driver (target_id adapter) order)
      else decided order decision metadata

  unfoldable pub build_print_result_event :
      PrintAdapter
      → PrintDriver
      → String
      → PrintSensorObservation
      → StoredOrder
      → Dict Value
      → EventArgs
  unfolding decide deliver build_print_postcheck_event
  build_print_result_event adapter driver mode seen order base =
      concluded adapter driver seen order (decide adapter mode)
        (result_metadata adapter driver mode seen base (decide adapter mode).metadata)
