-- ===== src/Pilot/Lanes/Print.antt =====
-- The print lane (`execute_print_lane`): the request, the result, and what follows a failure.
pub mod Events
pub mod Keeps
pub mod Confirmed
pub mod Recorded
use p4p.Prelude.{
  String, ◌==◌, strip, lower, true, false, Bool, ◌&&◌, none, some, Option, [], ◌∷◌, ◌++◌,
  if◌then◌else◌,
}
use p4p.Prelude.Dict.{Dict, update}
use p4p.Prelude.Result.{Result, ok, err}
use p4p.Core.Event.{ModuleResultEvent, Value, text}
use p4p.Pilot.Order.{StoredOrder}
use p4p.Pilot.Config.{Config, World}
use p4p.Pilot.Store.{Exec, pure, lift, ◌>>=◌, ◌>>◌}
use p4p.Pilot.Store.Orders.{update_order_status}
use p4p.Pilot.Modules.{
  module_enabled, module_metadata, module_supports_fallback, hardware_profile_metadata,
}
use p4p.Pilot.Record.{EventArgs, result_phase, build_result_event, record_order_flow_event, emit}
use p4p.Pilot.Print.Adapter.{
  PrintAdapter, target_id, confirmed_status_message, needs_human_status_message,
  alerted_status_message, alert_failed_status_message, build_print_adapter,
}
use p4p.Pilot.Print.Sensor.{
  PrintSensor, PrintSensorObservation, source_id, build_print_sensor, precheck, postcheck,
}
use p4p.Pilot.Print.Driver.{PrintDriver, driver_id, build_print_driver}
use p4p.Pilot.Lanes.Common.{tagged, requested, needs_human, accepted_with}
use Events.{print_module_id, build_print_precheck_event, build_print_result_event}

abbrev pub notify_email_module_id : String
notify_email_module_id = "p4p.notify.email"

-- The arguments of the event that `build_notification_result_event` builds, by the configured mode.
abbrev pub notification_args : String → StoredOrder → String → PrintAdapter → Dict Value → EventArgs
notification_args mode order trigger adapter base =
    let failed = mode == "failed" in
    let shown = if mode == "" then "sent" else mode in
    record {
      event = if failed then "NOTIFICATION_FAILED" else "NOTIFICATION_SENT";
      source_module = notify_email_module_id;
      order_id = order.order_id;
      action_id = tagged "order" order.order_id "notify:email";
      idempotency_key = tagged "notify" order.order_id "email";
      outcome = if failed then "FAILED_RETRYABLE" else "SUCCESS";
      severity = if failed then "high" else "medium";
      retryable = failed;
      side_effect_state = if failed then "none" else "confirmed";
      reason_code = if failed then some "EMAIL_DELIVERY_FAILED" else none;
      metadata =
          base
          ++ ("configured_mode", text shown) ∷ ("adapter_target", text (target_id adapter)) ∷ [];
      phase = result_phase;
      trigger = some trigger;
    }

abbrev pub printed : EventArgs → Option EventArgs → EventArgs
printed result none = result
printed result (some problem) = problem

-- Whether a notification was sent: `none` where none was tried.
abbrev pub message_after : PrintAdapter → Option Bool → String
message_after adapter none = needs_human_status_message adapter
message_after adapter (some true) = alerted_status_message adapter
message_after adapter (some false) = alert_failed_status_message adapter

abbrev pub severity_after : Option Bool → String
severity_after (some true) = "high"
severity_after _ = "critical"

module _ (config : Config) (world : World) where
  abbrev pub print_requested :
      StoredOrder
      → PrintAdapter
      → PrintDriver
      → PrintSensor
      → PrintSensorObservation
      → PrintSensorObservation
      → Dict Value
      → EventArgs
  print_requested order adapter driver sensor before after base =
      requested "PRINT_REQUESTED" print_module_id order.order_id
        (tagged "order" order.order_id "print:primary") (tagged "print" order.order_id "primary")
        (update
          (update
            (base
              ++ ("adapter_target", text (target_id adapter))
                ∷ ("print_driver", text (driver_id driver))
                ∷ ("configured_mode", text (lower (strip config.print_module_mode)))
                ∷ ("sensor_source", text (source_id sensor))
                ∷ ("sensor_precheck", text before.state)
                ∷ ("sensor_postcheck", text after.state)
                ∷ [])
            before.metadata)
          after.metadata)

  -- The event that the lane records as the print's result.
  abbrev pub print_result_args :
      StoredOrder
      → PrintAdapter
      → PrintDriver
      → PrintSensorObservation
      → PrintSensorObservation
      → Dict Value
      → EventArgs
  unfolding build_print_precheck_event build_print_result_event
  print_result_args order adapter driver before after base =
      printed
        (build_print_result_event config world adapter driver
          (lower (strip config.print_module_mode)) after order base)
        (build_print_precheck_event adapter before order base)

  unfoldable pub fallback : String → Exec Bool
  unfolding module_enabled module_supports_fallback
  fallback event =
      if module_enabled config notify_email_module_id
      then lift (module_supports_fallback config print_module_id event notify_email_module_id)
      else pure false

  unfoldable pub build_notification_result_event :
      StoredOrder → String → PrintAdapter → Dict Value → Exec ModuleResultEvent
  unfolding build_result_event
  build_notification_result_event order trigger adapter base =
      build_result_event config world
        (notification_args (lower (strip config.notify_email_mode)) order trigger adapter base)

  unfoldable pub notify :
      StoredOrder → String → PrintAdapter → Dict Value → Bool → Exec (Option Bool)
  unfolding build_notification_result_event record_order_flow_event module_metadata
  notify order trigger adapter base false = pure none
  notify order trigger adapter base true = do
    extra ← lift (module_metadata config notify_email_module_id)
    event ← build_notification_result_event order trigger adapter (update base extra)
    recorded ← record_order_flow_event config world event
    pure (some (event.event == "NOTIFICATION_SENT"))

  abbrev pub print_needs_human :
      StoredOrder → String → PrintAdapter → Dict Value → Option Bool → EventArgs
  print_needs_human order trigger adapter base sent =
      needs_human order.order_id (tagged "order" order.order_id "needs-human")
        (tagged "human" order.order_id "print") (severity_after sent) trigger
        (base ++ ("adapter_target", text (target_id adapter)) ∷ [])

  -- After a result that is not a success: the e-mail, if it is a fallback, and the hand-over.
  unfoldable pub hand_over : StoredOrder → String → PrintAdapter → Dict Value → Exec StoredOrder
  unfolding fallback notify emit
  hand_over order trigger adapter base = do
    tries ← fallback trigger
    sent ← notify order trigger adapter base tries
    emit config world (print_needs_human order trigger adapter base sent)
    update_order_status order.order_id (accepted_with (message_after adapter sent))

  unfoldable pub print_with :
      StoredOrder → PrintAdapter → PrintDriver → PrintSensor → Dict Value → Exec StoredOrder
  unfolding precheck postcheck emit
  print_with order adapter driver sensor base = do
    emit config world (
        print_requested order adapter driver sensor (precheck config world sensor)
          (postcheck config world sensor) base)
    result ← build_result_event config world (
        print_result_args order adapter driver (precheck config world sensor)
          (postcheck config world sensor) base)
    recorded ← record_order_flow_event config world result
    if result.event == "PRINT_SUCCESS_CONFIRMED"
        then update_order_status order.order_id (accepted_with (confirmed_status_message adapter))
        else hand_over order result.event adapter base

  unfoldable pub execute_print_lane : StoredOrder → Exec StoredOrder
  unfolding build_print_adapter build_print_driver build_print_sensor hardware_profile_metadata
      module_metadata
  execute_print_lane order = do
    base ← lift (module_metadata config print_module_id)
    print_with order (build_print_adapter config.print_module_target)
        (build_print_driver config.print_module_driver)
        (build_print_sensor config.print_sensor_source) (hardware_profile_metadata config ++ base)
