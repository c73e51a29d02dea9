-- ===== src/Pilot/Lanes/Print/Recorded.antt =====
-- When the print lane records that a print is confirmed.
use p4p.Prelude.{String, ◌≡◌, Bool, true, false, [], ◌∷◌, if◌then◌else◌, member, strip, lower}
use p4p.Prelude.Dict.{Dict}
use p4p.Pilot.Order.{StoredOrder}
use p4p.Pilot.Config.{Config, World}
use p4p.Pilot.Store.{Store}
use p4p.Pilot.Print.Adapter.{PrintAdapter, printer, screen, target_id}
use p4p.Pilot.Print.Driver.{PrintDriver, deliver}
use p4p.Pilot.Print.Sensor.{PrintSensor, precheck, postcheck}
use p4p.Pilot.Lanes.Print.Confirmed.{clear}

-- The mode is none of those that stand for a fault of the adapter.
abbrev pub NamesNoFault : PrintAdapter → String → Type 0
NamesNoFault printer mode =
    member mode ("printer_offline" ∷ "paper_out" ∷ "timeout" ∷ "uncertain" ∷ "precheck_failed" ∷ [])
    ≡ false
NamesNoFault screen mode =
    member mode
      ("screen_offline" ∷ "printer_offline" ∷ "unavailable" ∷ "timeout" ∷ "uncertain" ∷ [])
    ≡ false

abbrev sent_name : Bool → String
sent_name failed = if failed then "NOTIFICATION_FAILED" else "NOTIFICATION_SENT"

module _ (config : Config) (world : World) where
  -- The driver delivered the ticket, the mode stands for no fault, and on a printer the sensor
  -- shows no problem before and after.
  abbrev pub IsPrinted : StoredOrder → PrintAdapter → PrintDriver → PrintSensor → Type 0
  IsPrinted o adapter driver sensor =
      NamesNoFault adapter (lower (strip config.print_module_mode))
      × (((deliver config world driver (target_id adapter) o).success ≡ true)
          × ((clear adapter (precheck config world sensor) ≡ true)
              × (clear adapter (postcheck config world sensor) ≡ true)))
