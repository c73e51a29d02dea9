-- ===== src/Pilot/Lanes/Cash.antt =====
-- `execute_payment_cash_module`: pay at pickup, outside the protocol.
use p4p.Prelude.{
  String, strip, lower, true, false, Bool, some, [], ◌∷◌, ◌++◌, member, if◌then◌else◌,
}
use p4p.Prelude.Dict.{Dict}
use p4p.Core.Event.{Value, text}
use p4p.Pilot.Order.{StoredOrder}
use p4p.Pilot.Config.{Config, World}
use p4p.Pilot.Store.{Exec, lift, ◌>>=◌, ◌>>◌}
use p4p.Pilot.Modules.{module_metadata}
use p4p.Pilot.Record.{EventArgs, emit}
use p4p.Pilot.Lanes.Common.{
  payment_cash_module_id, tagged, requested, confirmed, failure, needs_human, step_to,
}
use p4p.Pilot.Lanes.Stock.{or_default}

module _ (config : Config) where
  unfoldable pub cash_mode : String
  cash_mode = lower (strip config.payment_cash_mode)

  unfoldable pub cash_fails : Bool
  unfolding cash_mode
  cash_fails = member cash_mode ("failed" ∷ "unavailable" ∷ "payment_failed" ∷ [])

  abbrev cash_metadata : Dict Value → Dict Value
  cash_metadata base =
      base
      ++ ("configured_mode", text (or_default cash_mode "pay_at_pickup"))
        ∷ ("payment_method", text "pay_at_pickup")
        ∷ ("payment_scope", text "outside_protocol")
        ∷ []

  abbrev pub cash_required : StoredOrder → Dict Value → EventArgs
  cash_required order base =
      requested "PAYMENT_REQUIRED" payment_cash_module_id order.order_id
        (tagged "order" order.order_id "payment:cash") (tagged "payment" order.order_id "cash")
        (cash_metadata base)

  abbrev pub cash_failed : StoredOrder → Dict Value → EventArgs
  cash_failed order base =
      failure "PAYMENT_FAILED" payment_cash_module_id order.order_id
        (tagged "order" order.order_id "payment:cash") (tagged "payment" order.order_id "cash")
        "UNAVAILABLE" "PAYMENT_MODE_UNAVAILABLE" false (some "PAYMENT_REQUIRED")
        (cash_metadata base)

  abbrev pub cash_needs_human : StoredOrder → Dict Value → EventArgs
  cash_needs_human order base =
      needs_human order.order_id (tagged "order" order.order_id "needs-human:payment")
        (tagged "human" order.order_id "payment") "high" "PAYMENT_FAILED" (cash_metadata base)

  abbrev pub cash_mode_changed : StoredOrder → Dict Value → EventArgs
  cash_mode_changed order base =
      confirmed "PAYMENT_MODE_CHANGED" payment_cash_module_id order.order_id
        (tagged "order" order.order_id "payment:cash") (tagged "payment" order.order_id "cash")
        (some "PAYMENT_REQUIRED") (cash_metadata base)

module _ (config : Config) (world : World) where
  unfoldable pub execute_payment_cash_module : StoredOrder → Exec (StoredOrder × Bool)
  execute_payment_cash_module order = do
    base ← lift (module_metadata config payment_cash_module_id)
    emit config world (cash_required config order base)
    if cash_fails config
        then (do
          emit config world (cash_failed config order base)
          emit config world (cash_needs_human config order base)
          step_to order "Order accepted. Payment mode needs human attention." false)
        else (do
          emit config world (cash_mode_changed config order base)
          step_to order "Order accepted. Payment set to pay at pickup." true)
