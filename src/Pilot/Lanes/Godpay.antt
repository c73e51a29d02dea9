-- ===== src/Pilot/Lanes/Godpay.antt =====
-- `execute_godpay_mock_module`: a mock payment that a roll decides.
use p4p.Prelude.{ℕ, String, true, false, Bool, none, some, [], ◌∷◌, ◌++◌, leb, if◌then◌else◌}
use p4p.Prelude.Dict.{Dict}
use p4p.Core.Event.{Value, text, num, flag}
use p4p.Pilot.Order.{StoredOrder}
use p4p.Pilot.Config.{Config, World}
use p4p.Pilot.Store.{Exec, lift, ◌>>=◌, ◌>>◌}
use p4p.Pilot.Store.Orders.{update_order_payment_method}
use p4p.Pilot.Modules.{module_metadata}
use p4p.Pilot.Record.{EventArgs, emit}
use p4p.Pilot.Lanes.Common.{
  godpay_mock_module_id, tagged, requested, confirmed, failure, needs_human, order_amount, step_to,
}

module _ (config : Config) (world : World) where
  unfoldable pub godpay_roll : StoredOrder → ℕ
  godpay_roll order = elim config.godpay_force_roll [
    | some roll ↦ roll
    | none ↦ world.godpay_draw order.order_id
  ]

  unfoldable pub godpay_accepts : StoredOrder → Bool
  unfolding godpay_roll
  godpay_accepts order = leb (godpay_roll order) config.godpay_success_threshold

  abbrev result_message : StoredOrder → String
  result_message order =
      if godpay_accepts order
      then "The pizza gods accepted the offering."
      else "The pizza gods declined this order."

  abbrev godpay_metadata : StoredOrder → ℕ → Dict Value → Dict Value
  godpay_metadata order amount base =
      base
      ++ ("payment_scope", text "internal_mock")
        ∷ ("payment_method", text "godpay_mock")
        ∷ ("mock_module", flag true)
        ∷ ("real_payment", flag false)
        ∷ ("settlement", text "none")
        ∷ ("amount", num amount)
        ∷ ("currency", text "TEST")
        ∷ ("roll", num (godpay_roll order))
        ∷ ("success_threshold", num config.godpay_success_threshold)
        ∷ ("message", text (result_message order))
        ∷ []

  abbrev pub godpay_required : StoredOrder → ℕ → Dict Value → EventArgs
  godpay_required order amount base =
      requested "PAYMENT_REQUIRED" godpay_mock_module_id order.order_id
        (tagged "order" order.order_id "payment:godpay-mock")
        (tagged "payment" order.order_id "godpay-mock") (godpay_metadata order amount base)

  abbrev pub godpay_mode_changed : StoredOrder → ℕ → Dict Value → EventArgs
  godpay_mode_changed order amount base =
      confirmed "PAYMENT_MODE_CHANGED" godpay_mock_module_id order.order_id
        (tagged "order" order.order_id "payment:godpay-mock")
        (tagged "payment" order.order_id "godpay-mock") (some "PAYMENT_REQUIRED")
        (godpay_metadata order amount base)

  abbrev pub godpay_declined : StoredOrder → ℕ → Dict Value → EventArgs
  godpay_declined order amount base =
      failure "PAYMENT_FAILED" godpay_mock_module_id order.order_id
        (tagged "order" order.order_id "payment:godpay-mock")
        (tagged "payment" order.order_id "godpay-mock") "FAILED_PERMANENT" "GODPAY_DECLINED" true
        (some "PAYMENT_REQUIRED") (godpay_metadata order amount base)

  abbrev pub godpay_needs_human : StoredOrder → ℕ → Dict Value → EventArgs
  godpay_needs_human order amount base =
      needs_human order.order_id (tagged "order" order.order_id "needs-human:payment")
        (tagged "human" order.order_id "payment") "high" "PAYMENT_FAILED"
        (godpay_metadata order amount base)

  unfoldable pub execute_godpay_mock_module : StoredOrder → Exec (StoredOrder × Bool)
  execute_godpay_mock_module order = do
    amount ← order_amount order
    base ← lift (module_metadata config godpay_mock_module_id)
    emit config world (godpay_required order amount base)
    if godpay_accepts order
        then (do
          emit config world (godpay_mode_changed order amount base)
          update_order_payment_method order.order_id "godpay_mock"
          step_to order (result_message order) true)
        else (do
          emit config world (godpay_declined order amount base)
          emit config world (godpay_needs_human order amount base)
          step_to order (result_message order) false)
