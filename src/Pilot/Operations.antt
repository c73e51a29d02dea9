-- ===== src/Pilot/Operations.antt =====
-- What customers and operators ask of the node about orders (routes.py), and when it takes orders
-- at all (`node_state`).
pub mod Gate
use p4p.Prelude.{
  ℕ, ◌+◌, ◌*◌, String, ◌==◌, concat, strip, lower, Bool, true, false, not, ◌&&◌, ◌||◌, Option, none,
  some, [], ◌∷◌, member, if◌then◌else◌,
}
use p4p.Prelude.Dict.{get_or}
use p4p.Prelude.Result.{Result, ok, err}
use p4p.Core.Event.{Value, null, text}
use p4p.Pilot.Order.{
  OrderStatus, new, accepted, rejected, ready, completed, cancelled, OrderRequest, StoredOrder,
  OrderStatusUpdate,
}
use p4p.Pilot.Config.{Config, World}
use p4p.Pilot.Store.{
  Store, Exec, Error, http, admission, ActionStatus, unknown, succeeded, failed, note, OrderAction,
  pure, raise, gets, ◌>>=◌,
}
use p4p.Pilot.Store.Orders.{get_order, update_order_status, create_order_once}
use p4p.Pilot.Store.Events.{record_order_event}
use p4p.Pilot.Store.Outbox.{find_action, order_actions, finish_order_action}
use p4p.Pilot.Modules.{effective_flow_module_ids}
use p4p.Pilot.Record.{EventArgs, result_phase, build_result_event}
use p4p.Pilot.Lanes.Common.{tagged}
use p4p.Pilot.Lanes.Stock.{or_default}
use p4p.Pilot.Process.{process_accepted_order}

-- The two fields of `NodeDescriptor` that the order flow reads.
pub record NodeState : Type 0 where
  pub is_open : Bool
  pub order_mode : String

-- The status values that `OperatorOrderActionResolution` takes.
pub data Resolution : Type 0 where
  as_succeeded as_failed : Resolution

-- `OrderRejected.reason`, or the order with the time and the message of `OrderAccepted`, the
-- message before its translation.
pub data PublicReply : Type 0 where
  order_rejected : String → PublicReply
  order_accepted : StoredOrder → ℕ → String → PublicReply

abbrev pub resolved_status : Resolution → ActionStatus
resolved_status as_succeeded = succeeded
resolved_status as_failed = failed

abbrev resolution_note : Resolution → String → String
resolution_note as_succeeded n = or_default n "operator_reconciled_as_succeeded"
resolution_note as_failed n = or_default n "operator_reconciled_as_failed"

abbrev pub status_text : OrderStatus → String
status_text new = "new"
status_text accepted = "accepted"
status_text rejected = "rejected"
status_text ready = "ready"
status_text completed = "completed"
status_text cancelled = "cancelled"

abbrev pub is_new : OrderStatus → Bool
is_new new = true
is_new _ = false

abbrev pub is_accepted : OrderStatus → Bool
is_accepted accepted = true
is_accepted _ = false

-- What each operator handler does with the order that it finds.
abbrev pub or_404 {ℓ} : {A : Type 0} {B : Type ℓ} → (B → Exec A) → Option B → Exec A
or_404 f none = raise (http 404)
or_404 f (some b) = f b

abbrev pub resolve_found : Resolution → String → OrderAction → Exec OrderAction
resolve_found resolution n a = elim a.status [
  | unknown ↦
      finish_order_action a.action_id (resolved_status resolution)
        (note (resolution_note resolution n))
  | _ ↦ raise (http 409)
]

unfoldable pub operator_resolve_order_action :
    String → String → Resolution → String → Exec OrderAction
unfolding finish_order_action order_actions
operator_resolve_order_action order_id action_id resolution n s =
    or_404 (resolve_found resolution n) (find_action action_id (order_actions order_id s)) s

module _ (config : Config) where
  -- `live_configuration_blockers` is not empty.
  unfoldable pub live_blocked : Bool
  live_blocked =
      not config.persistent_database
      || not config.persistent_node_identity
      || not config.strong_operator_token

  unfoldable pub node_state : Store → NodeState
  unfolding live_blocked
  node_state s =
      let persisted = strip (get_or "order_mode" s.state "") in
      let mode = or_default persisted config.node_order_mode_default in
      let completed_at = strip (get_or "setup_completed_at" s.state "") in
      record {
        is_open =
            lower (get_or "open" s.state (if config.node_open_default then "true" else "false"))
            == "true";
        order_mode =
            if mode == "live" && not (persisted == "") && (live_blocked || completed_at == "")
            then "menu_only"
            else mode;
      }

  unfoldable pub node_accepts_orders : NodeState → Bool
  node_accepts_orders n = n.is_open && member n.order_mode ("test" ∷ "live" ∷ [])

module _ (config : Config) (world : World) where
  abbrev reply : StoredOrder → Exec PublicReply
  reply o = gets λ (s : Store).
      order_accepted o (elim o.estimated_ready [ none ↦ s.now + 60 * 20 | some t ↦ t ])
        (elim o.status_message [
          | none ↦ "Order received."
          | some m ↦ or_default m "Order received."
        ])

  abbrev after_create : Result Error (StoredOrder × Bool) → Exec PublicReply
  unfolding process_accepted_order
  after_create (err (admission reason)) = pure (order_rejected reason)
  after_create (err e) = raise e
  after_create (ok (order, created)) =
      if created && not config.manual_order_acceptance_required
      then process_accepted_order config world order >>= reply
      else reply order

  -- `order_id` and `status_token` are what the clock and `secrets` give to a new order.
  unfoldable pub public_order : String → String → OrderRequest → Exec PublicReply
  unfolding node_state create_order_once process_accepted_order
  public_order order_id status_token payload s =
      if not (node_state config s).is_open
      then (ok (order_rejected "closed"), s)
      else if not (member (node_state config s).order_mode ("test" ∷ "live" ∷ []))
      then (ok (order_rejected "orders_disabled"), s)
      else let (r, t) = create_order_once config world order_id status_token payload s in
        after_create r t

  abbrev resume_found : StoredOrder → Exec StoredOrder
  unfolding process_accepted_order
  resume_found order =
      if is_accepted order.status
      then process_accepted_order config world order
      else raise (http 409)

  unfoldable pub operator_resume_order : String → Exec StoredOrder
  unfolding get_order process_accepted_order
  operator_resume_order order_id = do order ← get_order order_id; or_404 resume_found order

  abbrev nullable : Option String → Value
  nullable none = null
  nullable (some t) = text t

  abbrev optional_time : Option ℕ → Value
  optional_time none = null
  optional_time (some t) = text (world.isoformat t)

  abbrev pub kitchen_screen_module_id : String
  kitchen_screen_module_id = "p4p.kitchen.screen"

  abbrev kitchen_action_id : StoredOrder → String
  kitchen_action_id o =
      tagged "order" o.order_id (
        concat ("kitchen-status:" ∷ status_text o.status ∷ ":" ∷ world.isoformat o.updated_at ∷ []))

  abbrev pub status_updated : StoredOrder → StoredOrder → EventArgs
  status_updated previous o = record {
    event = "ORDER_STATUS_UPDATED";
    source_module = kitchen_screen_module_id;
    order_id = o.order_id;
    action_id = kitchen_action_id o;
    idempotency_key = kitchen_action_id o;
    outcome = "SUCCESS";
    severity = "low";
    retryable = false;
    side_effect_state = "confirmed";
    reason_code = none;
    metadata =
        ("previous_status", text (status_text previous.status))
        ∷ ("next_status", text (status_text o.status))
        ∷ ("status_message", nullable o.status_message)
        ∷ ("estimated_ready", optional_time o.estimated_ready)
        ∷ ("operator_surface", text kitchen_screen_module_id)
        ∷ [];
    phase = result_phase;
    trigger = none;
  }

  -- An acceptance of a new order runs the lanes and leaves the rest of the request aside.
  abbrev updated_by : String → OrderStatusUpdate → StoredOrder → Exec StoredOrder
  unfolding process_accepted_order update_order_status
  updated_by order_id payload previous =
      if is_accepted payload.status && is_new previous.status
      then process_accepted_order config world previous
      else update_order_status order_id payload

  abbrev tell_kitchen : StoredOrder → StoredOrder → Exec StoredOrder
  unfolding effective_flow_module_ids build_result_event record_order_event
  tell_kitchen previous o s =
      if not (member kitchen_screen_module_id (effective_flow_module_ids config s))
      then (ok o, s)
      else (do
        event ← build_result_event config world (status_updated previous o)
        recorded ← record_order_event event
        pure o)
          s

  abbrev update_found : String → OrderStatusUpdate → StoredOrder → Exec StoredOrder
  unfolding process_accepted_order update_order_status effective_flow_module_ids build_result_event
      record_order_event
  update_found order_id payload previous = do
    o ← updated_by order_id payload previous
    tell_kitchen previous o

  unfoldable pub operator_update_order : String → OrderStatusUpdate → Exec StoredOrder
  unfolding get_order process_accepted_order update_order_status effective_flow_module_ids
      build_result_event record_order_event
  operator_update_order order_id payload = do
    order ← get_order order_id
    or_404 (update_found order_id payload) order
