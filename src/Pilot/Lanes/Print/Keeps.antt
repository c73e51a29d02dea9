-- ===== src/Pilot/Lanes/Print/Keeps.antt =====
-- The print lane leaves the outbox, the state, the menu and the clock as they are.
use p4p.Prelude.{String, Bool, true, false, ◌==◌, ◌++◌, lower, strip}
use p4p.Prelude.Dict.{Dict, update}
use p4p.Core.Event.{Value}
use p4p.Pilot.Order.{StoredOrder}
use p4p.Pilot.Config.{Config, World}
use p4p.Pilot.Store.Keeps.{Keeps, Kept-refl, Keeps-bind, Keeps-if, Keeps-update_order_status}
use p4p.Pilot.Modules.{module_enabled, hardware_profile_metadata}
use p4p.Pilot.Print.Adapter.{PrintAdapter, build_print_adapter}
use p4p.Pilot.Print.Driver.{PrintDriver, build_print_driver}
use p4p.Pilot.Print.Sensor.{PrintSensor, build_print_sensor, precheck, postcheck}
use p4p.Pilot.Lanes.Keeps.{Keeps-build_result_event, Keeps-record_order_flow_event, Keeps-emit}
use p4p.Pilot.Lanes.Print.{
  notify_email_module_id, fallback, notify, hand_over, print_with, execute_print_lane,
  build_notification_result_event, notification_args, print_needs_human, print_requested,
  print_result_args,
}

module _ (config : Config) (world : World) where
  Keeps-fallback : (event : String) → Keeps (fallback config world event)
  unfolding fallback
  Keeps-fallback event =
      Keeps-if (module_enabled config notify_email_module_id) _ _ (λ s. Kept-refl s)
        (λ s. Kept-refl s)

  Keeps-build_notification_result_event :
      (o : StoredOrder) (trigger : String) (adapter : PrintAdapter) (base : Dict Value)
      → Keeps (build_notification_result_event config world o trigger adapter base)
  unfolding build_notification_result_event
  Keeps-build_notification_result_event o trigger adapter base =
      Keeps-build_result_event config world
        (notification_args (lower (strip config.notify_email_mode)) o trigger adapter base)

  Keeps-notify :
      (o : StoredOrder) (trigger : String) (adapter : PrintAdapter) (base : Dict Value) (b : Bool)
      → Keeps (notify config world o trigger adapter base b)
  unfolding notify
  Keeps-notify o trigger adapter base false = λ s. Kept-refl s
  Keeps-notify o trigger adapter base true =
      Keeps-bind _ _ (λ s. Kept-refl s)
        λ extra.
          Keeps-bind _ _
            (Keeps-build_notification_result_event o trigger adapter (update base extra))
            λ event.
              Keeps-bind _ _ (Keeps-record_order_flow_event config world event) λ r s. Kept-refl s

  Keeps-hand_over :
      (o : StoredOrder) (trigger : String) (adapter : PrintAdapter) (base : Dict Value)
      → Keeps (hand_over config world o trigger adapter base)
  unfolding hand_over
  Keeps-hand_over o trigger adapter base = Keeps-bind _ _ (Keeps-fallback trigger) λ tries.
      Keeps-bind _ _ (Keeps-notify o trigger adapter base tries) λ sent.
        Keeps-bind _ _
          (Keeps-emit config world (print_needs_human config world o trigger adapter base sent))
          λ _. Keeps-update_order_status _ _

  Keeps-print_with :
      (o : StoredOrder) (adapter : PrintAdapter) (driver : PrintDriver) (sensor : PrintSensor)
      (base : Dict Value)
      → Keeps (print_with config world o adapter driver sensor base)
  unfolding print_with
  Keeps-print_with o adapter driver sensor base =
      Keeps-bind _ _
        (Keeps-emit config world (
          print_requested config world o adapter driver sensor (precheck config world sensor)
            (postcheck config world sensor) base))
        λ _.
          Keeps-bind _ _
            (Keeps-build_result_event config world (
              print_result_args config world o adapter driver (precheck config world sensor)
                (postcheck config world sensor) base))
            λ result. Keeps-bind _ _ (Keeps-record_order_flow_event config world result) λ _.
              Keeps-if (result.event == "PRINT_SUCCESS_CONFIRMED") _ _
                (Keeps-update_order_status _ _) (Keeps-hand_over o result.event adapter base)

  pub Keeps-execute_print_lane : (o : StoredOrder) → Keeps (execute_print_lane config world o)
  unfolding execute_print_lane
  Keeps-execute_print_lane o =
      Keeps-bind _ _ (λ s. Kept-refl s)
        λ base.
          Keeps-print_with o (build_print_adapter config.print_module_target)
            (build_print_driver config.print_module_driver)
            (build_print_sensor config.print_sensor_source)
            (hardware_profile_metadata config ++ base)
