-- ===== src/Pilot/Lanes/Keeps.antt =====
-- The lanes leave the outbox, the state, the menu and the clock as they are.
use p4p.Prelude.{String, Bool, List, arith, ◌&&◌, not, ◌||◌, ◌==◌, Option, none, some, [], ◌∷◌}
use p4p.Prelude.Dict.{Dict}
use p4p.Core.Event.{ModuleResultEvent, Value}
use p4p.Pilot.Order.{StoredOrder}
use p4p.Pilot.Config.{Config, World}
use p4p.Pilot.Store.{◌>>=◌}
use p4p.Pilot.Store.Keeps.{
  Keeps, Kept-refl, Keeps-bind, Keeps-if, Kept-if, Keeps-update_order_status,
  Keeps-update_order_payment_method, Keeps-list_order_events, Keeps-record_order_event,
}
use p4p.Pilot.Record.{EventArgs, build_result_event, record_order_flow_event, emit}
use p4p.Pilot.Lanes.Common.{order_amount, step_to}
use p4p.Pilot.Store.Events.{id_or_empty}
use p4p.Pilot.Lanes.Cash.{cash_fails, execute_payment_cash_module}
use p4p.Core.Manifest.{ModuleManifest, contains}
use p4p.Pilot.Modules.{effective_payment_module_id}
use p4p.Pilot.Lanes.Godpay.{godpay_accepts, execute_godpay_mock_module}
use p4p.Pilot.Lanes.External.{
  conclude, run_external, external_payment_manifest, record_external_payment_failure,
  execute_external_payment_module, execute_unavailable_payment_module,
}
use p4p.Pilot.Lanes.Reply.{Exchange, crashed, confirmed_as, refused, changed}
use p4p.Pilot.Lanes.Payment.{
  Executor, ModuleExecutor, cash, godpay, external, execute_module, run_executors, is_empty,
  enabled_module_executors, execute_module_lane,
}
use p4p.Pilot.Lanes.Stock.{stock_blocks, execute_stock_lane}

module _ (config : Config) (world : World) where
  pub Keeps-build_result_event : (a : EventArgs) → Keeps (build_result_event config world a)
  unfolding build_result_event
  Keeps-build_result_event a s = Kept-refl _

  pub Keeps-record_order_flow_event :
      (e : ModuleResultEvent) → Keeps (record_order_flow_event config world e)
  unfolding record_order_flow_event
  Keeps-record_order_flow_event e =
      Keeps-bind _ _ (Keeps-list_order_events (id_or_empty e.order_id))
        λ es. Keeps-bind _ _ (λ s. Kept-refl s) λ u. Keeps-record_order_event e

  pub Keeps-emit : (a : EventArgs) → Keeps (emit config world a)
  unfolding emit
  Keeps-emit a = Keeps-bind _ _ (Keeps-build_result_event a) λ e. Keeps-record_order_flow_event e

  Keeps-step_to : (o : StoredOrder) (m : String) (b : Bool) → Keeps (step_to o m b)
  Keeps-step_to o m b = Keeps-bind _ _ (Keeps-update_order_status _ _) λ u s. Kept-refl s

  -- A result of the lane that is not a step to the next lane: two events and the update.
  Keeps-refused :
      (a b : EventArgs) (o : StoredOrder) (m : String) (n : Bool)
      → Keeps (emit config world a >>= λ _. emit config world b >>= λ _. step_to o m n)
  Keeps-refused a b o m n =
      Keeps-bind _ _ (Keeps-emit a) λ _. Keeps-bind _ _ (Keeps-emit b) λ _. Keeps-step_to o m n

  pub Keeps-execute_stock_lane : (o : StoredOrder) → Keeps (execute_stock_lane config world o)
  unfolding execute_stock_lane
  Keeps-execute_stock_lane o =
      Keeps-bind _ _ (λ s. Kept-refl s)
        λ base.
          Keeps-if (stock_blocks config o) _ _ (Keeps-refused _ _ o _ _)
            (Keeps-bind _ _ (Keeps-emit _) λ _. Keeps-step_to o _ _)

  Keeps-execute_payment_cash_module :
      (o : StoredOrder) → Keeps (execute_payment_cash_module config world o)
  unfolding execute_payment_cash_module
  Keeps-execute_payment_cash_module o =
      Keeps-bind _ _ (λ s. Kept-refl s)
        λ base. Keeps-bind _ _ (Keeps-emit _) λ _.
          Keeps-if (cash_fails config) _ _ (Keeps-refused _ _ o _ _)
            (Keeps-bind _ _ (Keeps-emit _) λ _. Keeps-step_to o _ _)

  Keeps-order_amount : (o : StoredOrder) → Keeps (order_amount o)
  unfolding order_amount
  Keeps-order_amount o s = record {
    outbox = ground arith;
    state = ground arith;
    menu_items = ground arith;
    now = ground arith;
  }

  Keeps-execute_godpay_mock_module :
      (o : StoredOrder) → Keeps (execute_godpay_mock_module config world o)
  unfolding execute_godpay_mock_module
  Keeps-execute_godpay_mock_module o = Keeps-bind _ _ (Keeps-order_amount o) λ amount.
      Keeps-bind _ _ (λ s. Kept-refl s)
        λ base. Keeps-bind _ _ (Keeps-emit _) λ _.
          Keeps-if (godpay_accepts config world o) _ _
            (Keeps-bind _ _ (Keeps-emit _)
              λ _. Keeps-bind _ _ (Keeps-update_order_payment_method _ _) λ _. Keeps-step_to o _ _)
            (Keeps-refused _ _ o _ _)

  Keeps-record_external_payment_failure :
      (o : StoredOrder) (id action_id key reason : String) (metadata : Dict Value)
      (outcome : String) (retryable : Bool)
      → Keeps (
          record_external_payment_failure config world o id action_id key reason metadata outcome
            retryable)
  unfolding record_external_payment_failure
  Keeps-record_external_payment_failure o id action_id key reason metadata outcome retryable =
      Keeps-refused _ _ o _ _

  Keeps-execute_unavailable_payment_module :
      (o : StoredOrder) → Keeps (execute_unavailable_payment_module config world o)
  unfolding execute_unavailable_payment_module
  Keeps-execute_unavailable_payment_module o =
      Keeps-bind _ _ (λ s. Kept-refl s)
        λ id.
          Keeps-if (id == "" || not (contains config.manifests id)) _ _ (λ s. Kept-refl s)
            (Keeps-bind _ _ (λ s. Kept-refl s)
              λ base.
                Keeps-bind _ _ (Keeps-emit _)
                  λ _. Keeps-record_external_payment_failure o _ _ _ _ _ _ _)

  Keeps-conclude :
      (o : StoredOrder) (id action_id key : String) (metadata : Dict Value) (x : Exchange)
      → Keeps (conclude config world o id action_id key metadata x)
  unfolding conclude
  Keeps-conclude o id action_id key metadata (crashed x) = λ s. Kept-refl s
  Keeps-conclude o id action_id key metadata (refused reason outcome retryable extra) =
      Keeps-record_external_payment_failure o _ _ _ _ _ _ _
  Keeps-conclude o id action_id key metadata (confirmed_as payload) =
      Keeps-bind _ _ (Keeps-emit _) λ _.
        Keeps-if (changed payload) _ _
          (Keeps-bind _ _ (Keeps-update_order_payment_method _ _) λ _. Keeps-step_to o _ _)
          (Keeps-bind _ _ (Keeps-emit _) λ _. Keeps-step_to o _ _)

  Keeps-run_external :
      (o : StoredOrder) (id : String) (m : Option ModuleManifest)
      → Keeps (run_external config world o id m)
  unfolding run_external
  Keeps-run_external o id none = λ s. Kept-refl s
  Keeps-run_external o id (some m) = Keeps-bind _ _ (Keeps-order_amount o) λ amount.
      Keeps-bind _ _ (λ s. Kept-refl s)
        λ base. Keeps-bind _ _ (Keeps-emit _) λ _. Keeps-conclude o _ _ _ _ _

  Keeps-execute_module : (e : Executor) (o : StoredOrder) → Keeps (execute_module config world e o)
  unfolding execute_module execute_external_payment_module
  Keeps-execute_module cash o = Keeps-execute_payment_cash_module o
  Keeps-execute_module godpay o = Keeps-execute_godpay_mock_module o
  Keeps-execute_module (external id) o =
      Keeps-run_external o id (external_payment_manifest config world id)

  Keeps-run_executors :
      (es : List ModuleExecutor) (o : StoredOrder) → Keeps (run_executors config world es o)
  unfolding run_executors
  Keeps-run_executors [] o = λ s. Kept-refl s
  Keeps-run_executors (e ∷ es) o =
      Keeps-bind _ _ (Keeps-execute_module e.executor o)
        λ outcome. Keeps-if outcome.1 _ _ (Keeps-run_executors es outcome.0) (λ s. Kept-refl s)

  pub Keeps-execute_module_lane :
      (lane : String) (o : StoredOrder) → Keeps (execute_module_lane config world lane o)
  unfolding execute_module_lane
  Keeps-execute_module_lane lane o s =
      Kept-if
        (lane == "payment"
          && not (effective_payment_module_id config s == "")
          && is_empty config world (enabled_module_executors config world lane s))
        _ _ (Keeps-execute_unavailable_payment_module o s)
        (Keeps-run_executors (enabled_module_executors config world lane s) o s)
