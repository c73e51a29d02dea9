-- ===== src/Pilot/Process/Retry.antt =====
-- A lane that runs again on an order that is already in human hands.
use p4p.Prelude.{String, ◌≡◌, refl, true, some, Bool-cases, inl, inr}
use p4p.Prelude.Result.{Result, ok, err}
use p4p.Core.Flow.Base.{stock_basic_module_id}
use p4p.Core.Event.{Value}
use p4p.Prelude.Dict.{Dict}
use p4p.Pilot.Order.{StoredOrder}
use p4p.Pilot.Config.{Config, World}
use p4p.Pilot.Store.{Store, Error, OrderAction, ◌>>=◌, unknown}
use p4p.Pilot.Store.Events.{listed_events}
use p4p.Pilot.Store.Outbox.{find_action, claimable}
use p4p.Pilot.Modules.{module_metadata}
use p4p.Pilot.Record.Logs.{IsClosed, emit-closed}
use p4p.Pilot.Lanes.Keeps.{Keeps-execute_stock_lane}
use p4p.Pilot.Lanes.Stock.{stock_blocks, item_not_possible, order_validated, execute_stock_lane}
use p4p.Pilot.Process.{execute_durable_lane}
use p4p.Pilot.Process.Durable.{IsRow, claimed_store, status_of, execute_durable_lane-ended}

module _ (config : Config) (world : World) where
  -- The stock lane raises on an order that is in human hands.
  execute_stock_lane-closed :
      (order : StoredOrder) (s : Store)
      → IsClosed config world order.order_id s
      → (x : Error) × ((execute_stock_lane config world order s).0 ≡ err x)
  unfolding execute_stock_lane ◌>>=◌
  execute_stock_lane-closed order s closed = go (module_metadata config stock_basic_module_id) refl
    where
      go :
          (r : Result Error (Dict Value))
          → module_metadata config stock_basic_module_id ≡ r
          → (x : Error) × ((execute_stock_lane config world order s).0 ≡ err x)
      go (err x) h = (x, rw h refl)
      go (ok base) h = elim (Bool-cases (stock_blocks config order)) [
        | inl b ↦
            let (x, r) =
              emit-closed config world (item_not_possible config order base) s refl closed in
            (x, rw h (rw b (rw r refl)))
        | inr b ↦
            let (x, r) =
              emit-closed config world (order_validated config order base) s refl closed in
            (x, rw h (rw b (rw r refl)))
      ]

  -- A failed stock action whose order is already in human hands is claimed again, but its lane can
  -- only raise, and the action ends as unknown: the retry never succeeds.
  pub stock-retry-unknown :
      (id : String) (order : StoredOrder) (s : Store) {a : OrderAction}
      → find_action id s.outbox ≡ some a
      → IsRow order "stock" a
      → claimable a.status ≡ true
      → IsClosed config world order.order_id s
      → (x : Error) × (((execute_durable_lane "stock" id
              (execute_stock_lane config world)
              order
              s).0
            ≡ err x)
          × (status_of id
                (execute_durable_lane "stock" id (execute_stock_lane config world) order s).1
              ≡ some unknown))
  unfolding listed_events
  stock-retry-unknown id order s e row c closed =
      let (x, raised_x) = execute_stock_lane-closed order (claimed_store id s) closed in
      let (r, t) =
        execute_durable_lane-ended "stock" id (execute_stock_lane config world) order s e row c
          (Keeps-execute_stock_lane config world order) in
      (x, (rw r raised_x, rw t (rw raised_x refl)))
