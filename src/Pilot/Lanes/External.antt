-- ===== src/Pilot/Lanes/External.antt =====
-- The payment modules with an entry point of their own, and the module that cannot be run
-- (`execute_external_payment_module`, `execute_unavailable_payment_module`).
use p4p.Prelude.{
  String, ◌==◌, strip, true, false, Bool, not, ◌||◌, none, some, Option, [], ◌∷◌, ◌++◌,
  if◌then◌else◌, ℕ, concat,
}
use p4p.Prelude.Dict.{Dict, get_or}
use p4p.Core.Event.{Value, null, text, num, flag}
use p4p.Core.Manifest.{ModuleManifest, get, contains}
use p4p.Pilot.Order.{StoredOrder}
use p4p.Pilot.Config.{
  Config, World, PaymentPayload, PostResult, request_failed, not_an_object, replied,
}
use p4p.Prelude.Result.{Result, ok, err}
use p4p.Pilot.Store.{Error, raise, Exec, pure, lift, gets, ◌>>=◌, ◌>>◌}
use p4p.Pilot.Store.Orders.{update_order_payment_method}
use p4p.Pilot.Modules.{module_metadata, effective_payment_module_id}
use p4p.Pilot.Record.{emit}
use p4p.Pilot.Lanes.Common.{
  payment_cash_module_id, chaospay_mock_module_id, tagged, requested, failure, needs_human,
  order_amount, step_to,
}
use p4p.Pilot.Lanes.Stock.{or_default}
use p4p.Pilot.Lanes.Reply.{
  text_or_empty, payment_manifest_of, external_payment_url_error, payment_event_payload,
  safe_payment_outcome, safe_side_effect_state, payment_event_name, payment_reason_code, Exchange,
  after_confirm, changed, result_metadata, result_args, confirmed_as, refused, crashed,
}

module _ (config : Config) (world : World) where
  unfoldable pub external_payment_manifest : String → Option ModuleManifest
  external_payment_manifest module_id =
      if module_id == payment_cash_module_id
      then none
      else payment_manifest_of (get config.manifests module_id)

  -- The failure and the hand-over of `_record_external_payment_failure`.
  unfoldable pub record_external_payment_failure :
      StoredOrder
      → String
      → String
      → String
      → String
      → Dict Value
      → String
      → Bool
      → Exec (StoredOrder × Bool)
  record_external_payment_failure order module_id action_id key reason metadata outcome retryable =
      do
        emit config world (
            failure "PAYMENT_FAILED" module_id order.order_id action_id key outcome reason retryable
              (some "PAYMENT_REQUIRED") metadata)
        emit config world (
            needs_human order.order_id (tagged "order" order.order_id "needs-human:payment")
              (tagged "human" order.order_id "payment") "high" "PAYMENT_FAILED" metadata)
        step_to order "Order accepted. External payment needs human attention." false

  abbrev unavailable_metadata : String → Dict Value → Dict Value
  unavailable_metadata module_id base =
      base
      ++ ("payment_scope", text "unavailable_payment_executor")
        ∷ ("payment_module_id", text module_id)
        ∷ ("mock_module", flag (module_id == chaospay_mock_module_id))
        ∷ ("real_payment", flag false)
        ∷ []

  abbrev run_unavailable : StoredOrder → String → Exec (StoredOrder × Bool)
  run_unavailable order module_id =
      if module_id == "" || not (contains config.manifests module_id)
      then pure (order, true)
      else do
        base ← lift (module_metadata config module_id)
        emit config world (
            requested "PAYMENT_REQUIRED" module_id order.order_id
              (tagged "order" order.order_id (concat ("payment:unavailable:" ∷ module_id ∷ [])))
              (tagged "payment" order.order_id (concat ("unavailable:" ∷ module_id ∷ [])))
              (unavailable_metadata module_id base))
        record_external_payment_failure order module_id
            (tagged "order" order.order_id (concat ("payment:unavailable:" ∷ module_id ∷ [])))
            (tagged "payment" order.order_id (concat ("unavailable:" ∷ module_id ∷ [])))
            "PAYMENT_EXECUTOR_UNAVAILABLE" (unavailable_metadata module_id base) "UNAVAILABLE" false

  unfoldable pub execute_unavailable_payment_module : StoredOrder → Exec (StoredOrder × Bool)
  unfolding record_external_payment_failure
  execute_unavailable_payment_module order = do
    module_id ← gets (effective_payment_module_id config)
    run_unavailable order module_id

  abbrev pub payment_url : ModuleManifest → String
  payment_url m = or_default config.payment_external_url (strip (text_or_empty m.raw_entrypoint))

  abbrev external_metadata : ModuleManifest → String → ℕ → Dict Value → Dict Value
  external_metadata m module_id amount base =
      base
      ++ ("payment_scope", text "external_test_module")
        ∷ ("payment_entrypoint", text (payment_url m))
        ∷ ("payment_module_id", text module_id)
        ∷ ("merchant_id", text config.payment_external_merchant_id)
        ∷ ("currency", text config.payment_external_currency)
        ∷ ("amount", num amount)
        ∷ ("auto_confirm", flag config.payment_external_auto_confirm)
        ∷ []

  -- The confirm call, to `{url.rstrip('/')}/{payment_id}/confirm`.
  abbrev pub confirm_payment : String → PaymentPayload → Exchange
  confirm_payment url payload =
      if strip (get_or "payment_id" payload.fields "") == ""
      then refused "PAYMENT_EXTERNAL_ID_MISSING" "FAILED_PERMANENT" false []
      else after_confirm (world.post_confirm url (strip (get_or "payment_id" payload.fields "")))

  abbrev pub after_create : String → PostResult → Exchange
  after_create url request_failed =
      refused "PAYMENT_EXTERNAL_REQUEST_FAILED" "UNAVAILABLE" true (("error", null) ∷ [])
  after_create url not_an_object =
      refused "PAYMENT_EXTERNAL_RESPONSE_INVALID" "FAILED_PERMANENT" false []
  after_create url (replied payload) =
      if config.payment_external_auto_confirm
      then confirm_payment url payload
      else refused "PAYMENT_REQUIRES_EXTERNAL_CONFIRMATION" "FAILED_PERMANENT" false []

  abbrev pub checked_exchange : String → Result Error (Option String) → Exchange
  checked_exchange url (err e) = crashed e
  checked_exchange url (ok (some reason)) = refused reason "UNAVAILABLE" false []
  checked_exchange url (ok none) =
      if config.payment_external_customer_user_id == ""
      then refused "PAYMENT_CUSTOMER_USER_ID_MISSING" "FAILED_PERMANENT" false []
      else after_create url (world.post_create url)

  -- The checks and the calls of `execute_external_payment_module`, up to the event it records.
  unfoldable pub exchange : String → Exchange
  unfolding external_payment_url_error
  exchange url = checked_exchange url (external_payment_url_error world url)

  unfoldable pub conclude :
      StoredOrder → String → String → String → Dict Value → Exchange → Exec (StoredOrder × Bool)
  unfolding record_external_payment_failure payment_event_payload payment_event_name
      safe_payment_outcome safe_side_effect_state payment_reason_code
  conclude order module_id action_id key metadata (crashed e) = raise e
  conclude order module_id action_id key metadata (refused reason outcome retryable extra) =
      record_external_payment_failure order module_id action_id key reason (metadata ++ extra)
        outcome retryable
  conclude order module_id action_id key metadata (confirmed_as payload) = do
    emit config world (result_args module_id order.order_id action_id key payload metadata)
    if changed payload
        then (do
          update_order_payment_method order.order_id "external_test_payment"
          step_to order "Order accepted. External payment confirmed." true)
        else (do
          emit config world (
              needs_human order.order_id (tagged "order" order.order_id "needs-human:payment")
                (tagged "human" order.order_id "payment") "high" "PAYMENT_FAILED"
                (result_metadata payload metadata))
          step_to order "Order accepted. External payment needs human attention." false)

  unfoldable pub run_external :
      StoredOrder → String → Option ModuleManifest → Exec (StoredOrder × Bool)
  unfolding exchange
  run_external order module_id none = pure (order, true)
  run_external order module_id (some m) = do
    amount ← order_amount order
    base ← lift (module_metadata config module_id)
    emit config world (
        requested "PAYMENT_REQUIRED" module_id order.order_id
          (tagged "order" order.order_id (concat ("payment:external:" ∷ module_id ∷ [])))
          (tagged "payment" order.order_id module_id) (external_metadata m module_id amount base))
    conclude order module_id
        (tagged "order" order.order_id (concat ("payment:external:" ∷ module_id ∷ [])))
        (tagged "payment" order.order_id module_id) (external_metadata m module_id amount base)
        (exchange (payment_url m))

  unfoldable pub execute_external_payment_module : StoredOrder → String → Exec (StoredOrder × Bool)
  unfolding external_payment_manifest
  execute_external_payment_module order module_id =
      run_external order module_id (external_payment_manifest module_id)
