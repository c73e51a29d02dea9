-- ===== src/Tests/Orders.antt =====
-- Orders, the outbox, the durable lanes, and the operator.
use p4p.Prelude.{
  String, strip, lower, lower_ascii, trim, ◌==◌, ◌≡◌, refl, true, false, some, List, [], ◌∷◌, arith,
}
use p4p.Prelude.Dict.{get_or}
use p4p.Prelude.Result.{ok}
use p4p.Pilot.Order.{StoredOrder, OrderPricingSnapshot}
use p4p.Pilot.Store.{Store, running, succeeded, failed, unknown, OrderAction, no_error, ◌>>=◌, pure}
use p4p.Pilot.Store.Orders.{
  sql_contact, new_order, enforce_order_admission, create_order_once, get_order,
  update_order_status,
}
use p4p.Pilot.Store.Orders.Creation.{IsWithin, HasRoom, create_order_once-repeat}
use p4p.Pilot.Store.Orders.Invariants.{
  IsLimited, IsUnique, create_order_once-IsWithin, create_order_once-IsLimited,
  create_order_once-IsUnique,
}
use p4p.Pilot.Store.Outbox.{
  find_action, claim_order_action, ensure_order_action, finish_order_action, restart, order_actions,
}
use p4p.Pilot.Store.Outbox.Held.{OutboxCall, restarts, finishes, after_all}
use p4p.Pilot.Store.Outbox.Exclusion.{claimed-once}
use p4p.Pilot.Process.{Lane, execute_durable_lane}
use p4p.Pilot.Process.Durable.{status_of, execute_durable_lane-held, execute_durable_lane-ended}
use p4p.Pilot.Process.Status.{after_restart, restart-status}
use p4p.Pilot.Operations.{
  live_blocked, node_state, node_accepts_orders, public_order, order_rejected, as_succeeded,
  resolved_status, operator_resolve_order_action,
}
use p4p.Pilot.Operations.Gate.{
  public_order-gate, node_state-live, operator_resolve_order_action-unknown,
}
use p4p.Pilot.Store.Keeps.{Kept-refl}
use p4p.Tests.{diner, town, store, request, order, action}

orders : Unit {0}
unfolding sql_contact strip lower lower_ascii trim enforce_order_admission create_order_once
    get_order update_order_status claim_order_action ensure_order_action finish_order_action restart
    order_actions ◌>>=◌ live_blocked node_state node_accepts_orders operator_resolve_order_action
orders = tt

-- What the request costs: two pizzas.
abbrev pricing : OrderPricingSnapshot
pricing = record {
  currency = "EUR";
  lines =
      record { id = "pizza"; name = "Pizza"; quantity = 2; unit_price = 900; line_total = 1800 }
      ∷ [];
  total_minor = 1800;
}

abbrev placed : StoredOrder
placed = new_order diner town "o-2" "t-2" request pricing 100

abbrev empty_store : Store
empty_store = store [] []

create_order_once-repeat_example :
    create_order_once diner town "o-3" "t-3" request
      (create_order_once diner town "o-2" "t-2" request empty_store).1
    ≡ (ok (placed, false), (create_order_once diner town "o-2" "t-2" request empty_store).1)
unfolding orders
create_order_once-repeat_example =
    create_order_once-repeat diner town "o-2" "t-2" "o-3" "t-3" request empty_store {o = placed}
      {created = true} refl

create_order_once-IsWithin_example :
    (p : OrderPricingSnapshot) × ((placed.pricing_snapshot ≡ some p)
      × (IsWithin diner request empty_store p × HasRoom diner empty_store))
unfolding orders
create_order_once-IsWithin_example =
    create_order_once-IsWithin diner town "o-2" "t-2" request empty_store {o = placed} refl

create_order_once-IsLimited_example :
    IsLimited diner (create_order_once diner town "o-2" "t-2" request empty_store).1
create_order_once-IsLimited_example =
    create_order_once-IsLimited diner town "o-2" "t-2" request empty_store
      (omega arith, omega arith)

create_order_once-IsUnique_example :
    IsUnique (create_order_once diner town "o-2" "t-2" request empty_store).1.orders
create_order_once-IsUnique_example =
    create_order_once-IsUnique diner town "o-2" "t-2" request empty_store (refl, tt)

-- A worker claims the stock check of the order, another one finishes something else, the node
-- restarts, and a third worker tries.
abbrev calls : List OutboxCall
calls = finishes "outbox:o-1:print:primary" failed no_error ∷ restarts ∷ []

abbrev claimed : Store
claimed = (claim_order_action "o-1" "outbox:o-1:stock:basic" "stock" empty_store).1

claimed-once_example :
    (false ≡ false)
    × ((claim_order_action "o-1" "outbox:o-1:stock:basic" "stock" (after_all calls claimed)).1
        ≡ after_all calls claimed)
unfolding orders
claimed-once_example =
    claimed-once "o-1" "outbox:o-1:stock:basic" "stock" empty_store refl calls refl "o-1" "stock"
      refl

-- A lane that allows the next step, and one that does not.
abbrev allowing : Lane
allowing o = pure (o, true)

abbrev refusing : Lane
refusing o = pure (o, false)

execute_durable_lane-held_example :
    execute_durable_lane "stock" "outbox:o-1:stock:basic" allowing order
      (store [] (action succeeded ∷ []))
    ≡ execute_durable_lane "stock" "outbox:o-1:stock:basic" refusing order
        (store [] (action succeeded ∷ []))
execute_durable_lane-held_example =
    execute_durable_lane-held "stock" "outbox:o-1:stock:basic" allowing refusing order
      (store [] (action succeeded ∷ [])) refl

abbrev waiting : Store
waiting = store [] (action failed ∷ [])

execute_durable_lane-ended_example :
    ((execute_durable_lane "stock" "outbox:o-1:stock:basic" allowing order waiting).0
      ≡ ok (order, true))
    × (status_of "outbox:o-1:stock:basic"
          (execute_durable_lane "stock" "outbox:o-1:stock:basic" allowing order waiting).1
        ≡ some succeeded)
execute_durable_lane-ended_example =
    execute_durable_lane-ended "stock" "outbox:o-1:stock:basic" allowing order waiting
      {a = action failed} refl (refl, refl) refl Kept-refl

restart-status_example :
    status_of "outbox:o-1:stock:basic" (restart (store [] (action running ∷ [])))
    ≡ after_restart (some running)
restart-status_example = restart-status "outbox:o-1:stock:basic" (store [] (action running ∷ []))

abbrev closed : Store
closed = record empty_store { state = ("open", "false") ∷ [] }

public_order-gate_example :
    (reason : String) × (public_order diner town "o-2" "t-2" request closed
      ≡ (ok (order_rejected reason), closed))
unfolding orders
public_order-gate_example = public_order-gate diner town "o-2" "t-2" request closed refl

abbrev live : Store
live = record empty_store {
  state = ("order_mode", "live") ∷ ("setup_completed_at", "2026-01-01") ∷ [];
}

node_state-live_example :
    (live_blocked diner ≡ false)
    × ((strip (get_or "setup_completed_at" live.state "") == "") ≡ false)
unfolding orders
node_state-live_example = node_state-live diner town live refl refl

operator_resolve_order_action-unknown_example :
    (a : OrderAction) × ((find_action "outbox:o-1:stock:basic"
          (order_actions "o-1" (store [] (action unknown ∷ [])))
        ≡ some a)
      × ((a.status ≡ unknown) × (succeeded ≡ resolved_status as_succeeded)))
unfolding orders
operator_resolve_order_action-unknown_example =
    operator_resolve_order_action-unknown "o-1" "outbox:o-1:stock:basic" as_succeeded "checked"
      (store [] (action unknown ∷ [])) refl
