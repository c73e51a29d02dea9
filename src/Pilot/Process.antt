-- ===== src/Pilot/Process.antt =====
-- The order's way through the lanes (execution.py), each lane behind a row of the outbox.
pub mod Durable
pub mod Status
pub mod Retry
use p4p.Prelude.{
  String, ◌==◌, concat, title, starts_with, Bool, true, false, not, ◌&&◌, Option, none, some, [],
  ◌∷◌, any, if◌then◌else◌,
}
use p4p.Prelude.Dict.{get_or}
use p4p.Prelude.Result.{Result, ok, err}
use p4p.Core.Event.{ModuleResultEvent, text}
use p4p.Core.Flow.Base.{order_receiver_module_id, stock_basic_module_id}
use p4p.Pilot.Order.{StoredOrder}
use p4p.Pilot.Config.{Config, World}
use p4p.Pilot.Store.{
  Store, Exec, Error, ActionStatus, pending, running, succeeded, failed, unknown, no_error, note,
  raised, OrderAction, pure, gets, ◌>>=◌, ◌>>◌,
}
use p4p.Pilot.Store.Orders.{get_order, update_order_status}
use p4p.Pilot.Store.Events.{list_order_events}
use p4p.Pilot.Store.Outbox.{ensure_order_action, claim_order_action, finish_order_action}
use p4p.Pilot.Modules.{module_enabled, effective_payment_module_id}
use p4p.Pilot.Record.{EventArgs, build_result_event, record_order_flow_event_once}
use p4p.Pilot.Lanes.Common.{tagged, confirmed, accepted_with}
use p4p.Pilot.Lanes.Stock.{execute_stock_lane}
use p4p.Pilot.Lanes.Payment.{execute_module_lane}
use p4p.Pilot.Lanes.Print.{execute_print_lane}
use p4p.Pilot.Lanes.Print.Events.{print_module_id}

abbrev pub Lane : Type 0
Lane = StoredOrder → Exec (StoredOrder × Bool)

abbrev pub unknown_side_effect : String → ModuleResultEvent → Bool
unknown_side_effect action_prefix e =
    starts_with action_prefix e.action_id && e.side_effect_state == "unknown"

unfoldable pub action_has_unknown_side_effect : String → String → Exec Bool
unfolding list_order_events
action_has_unknown_side_effect order_id action_prefix = do
  events ← list_order_events order_id
  pure (any (unknown_side_effect action_prefix) events)

-- `store.get_order(order_id) or order`
abbrev pub order_or : StoredOrder → Option StoredOrder → StoredOrder
order_or order none = order
order_or order (some found) = found

abbrev pub already_done : Lane
already_done order = do found ← get_order order.order_id; pure (order_or order found, true)

abbrev pub blocked : String → Lane
blocked message order = do
  updated ← update_order_status order.order_id (accepted_with message)
  pure (updated, false)

abbrev pub needs_reconciliation : String → String
needs_reconciliation lane =
    concat ("Order accepted. " ∷ title lane ∷ " outcome needs human reconciliation." ∷ [])

abbrev pub being_processed : String → String
being_processed lane =
    concat ("Order accepted. " ∷ title lane ∷ " is already being processed." ∷ [])

-- What is recorded of an action whose lane did not allow the next step.
abbrev pub unfinished : Bool → ActionStatus
unfinished true = unknown
unfinished false = failed

-- `try: execute … except: finish_order_action(…); raise`, and the two ways a lane returns.
unfoldable pub settle :
    String → String → StoredOrder → Result Error (StoredOrder × Bool) → Exec (StoredOrder × Bool)
unfolding action_has_unknown_side_effect finish_order_action
settle lane action_id order (err e) = do
  finish_order_action action_id unknown (raised e)
  λ s. (err e, s)
settle lane action_id order (ok (updated, true)) = do
  finish_order_action action_id succeeded no_error
  pure (updated, true)
settle lane action_id order (ok (updated, false)) = do
  doubtful ←
      action_has_unknown_side_effect order.order_id
        (concat ("order:" ∷ order.order_id ∷ ":" ∷ lane ∷ []))
  finish_order_action action_id (unfinished doubtful)
      (note (concat (lane ∷ "_lane_did_not_complete" ∷ [])))
  pure (updated, false)

abbrev pub run_claimed : String → String → Lane → Lane
run_claimed lane action_id execute order s =
    settle lane action_id order (execute order s).0 (execute order s).1

abbrev pub not_claimed : String → ActionStatus → Lane
not_claimed lane succeeded = already_done
not_claimed lane _ = blocked (being_processed lane)

abbrev pub after_claim : String → String → Lane → OrderAction × Bool → Lane
after_claim lane action_id execute (a, true) = run_claimed lane action_id execute
after_claim lane action_id execute (a, false) = not_claimed lane a.status

unfoldable pub claim_and_run : String → String → Lane → Lane
unfolding claim_order_action
claim_and_run lane action_id execute order = do
  claimed ← claim_order_action order.order_id action_id lane
  after_claim lane action_id execute claimed order

abbrev pub by_status : ActionStatus → String → String → Lane → Lane
by_status succeeded lane action_id execute = already_done
by_status running lane action_id execute = blocked (needs_reconciliation lane)
by_status unknown lane action_id execute = blocked (needs_reconciliation lane)
by_status pending lane action_id execute = claim_and_run lane action_id execute
by_status failed lane action_id execute = claim_and_run lane action_id execute

unfoldable pub execute_durable_lane : String → String → Lane → Lane
unfolding ensure_order_action
execute_durable_lane lane action_id execute order = do
  action ← ensure_order_action order.order_id action_id lane
  by_status action.status lane action_id execute order

-- A lane that the node runs only if a condition holds; the next one only if it may.
abbrev pub when : Bool → Lane → Lane
when true lane order = lane order
when false lane order = pure (order, true)

abbrev pub followed_by : Lane → Lane → Lane
followed_by first next order = do
  outcome ← first order
  if outcome.1 then next outcome.0 else pure outcome

abbrev pub is_print_success : ModuleResultEvent → Bool
is_print_success e = e.event == "PRINT_SUCCESS_CONFIRMED"

module _ (config : Config) (world : World) where
  abbrev pub accept_args : StoredOrder → String → EventArgs
  accept_args order mode =
      confirmed "ORDER_ACCEPTED" order_receiver_module_id order.order_id
        (tagged "order" order.order_id "accept") (tagged "order" order.order_id "accept") none
        (("order_mode", text mode) ∷ [])

  -- ORDER_ACCEPTED, once.
  unfoldable pub accept : StoredOrder → Exec StoredOrder
  unfolding build_result_event record_order_flow_event_once
  accept order = do
    accepted_order ←
        update_order_status order.order_id (accepted_with "Order accepted by node runtime.")
    mode ← gets (λ (s : Store). get_or "order_mode" s.state config.node_order_mode_default)
    event ← build_result_event config world (accept_args accepted_order mode)
    recorded ← record_order_flow_event_once config world event
    pure accepted_order

  unfoldable pub stock_lane : Lane
  unfolding execute_durable_lane execute_stock_lane
  stock_lane order =
      execute_durable_lane "stock" (tagged "outbox" order.order_id "stock:basic")
        (execute_stock_lane config world) order

  unfoldable pub pay_with : String → Lane
  unfolding execute_durable_lane execute_module_lane
  pay_with module_id order =
      execute_durable_lane "payment"
        (tagged "outbox" order.order_id (concat ("payment:" ∷ module_id ∷ [])))
        (execute_module_lane config world "payment") order

  abbrev pub payment_lane : Lane
  payment_lane order = do
    module_id ← gets (effective_payment_module_id config)
    when (not (module_id == "")) (pay_with module_id) order

  -- `run_print`
  unfoldable pub run_print : Lane
  unfolding execute_print_lane list_order_events
  run_print order = do
    updated ← execute_print_lane config world order
    events ← list_order_events order.order_id
    pure (updated, any is_print_success events)

  unfoldable pub print_lane : Lane
  unfolding execute_durable_lane run_print
  print_lane order =
      execute_durable_lane "print" (tagged "outbox" order.order_id "print:primary") run_print order

  unfoldable pub process_accepted_order : StoredOrder → Exec StoredOrder
  unfolding accept
  process_accepted_order order = do
    accepted_order ← accept order
    outcome ←
        followed_by (when (module_enabled config stock_basic_module_id) stock_lane)
          (followed_by payment_lane (when (module_enabled config print_module_id) print_lane))
          accepted_order
    pure outcome.0
