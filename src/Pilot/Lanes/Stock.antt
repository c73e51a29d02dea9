-- ===== src/Pilot/Lanes/Stock.antt =====
-- `execute_stock_lane`: is every item of the order to be had?
use p4p.Prelude.{
  String, ◌==◌, strip, lower, Bool, true, false, ◌||◌, some, List, [], ◌∷◌, ◌++◌, member, select,
  take, if◌then◌else◌,
}
use p4p.Prelude.Dict.{Dict}
use p4p.Core.Event.{Value, text, texts}
use p4p.Core.Flow.Base.{stock_basic_module_id}
use p4p.Pilot.Order.{StoredOrder}
use p4p.Pilot.Config.{Config, World}
use p4p.Pilot.Store.{Exec, lift, ◌>>=◌, ◌>>◌}
use p4p.Pilot.Store.Orders.{item_ids}
use p4p.Pilot.Modules.{module_metadata}
use p4p.Pilot.Record.{EventArgs, emit}
use p4p.Pilot.Lanes.Common.{tagged, confirmed, failure, needs_human, step_to}

-- `value or default`
abbrev pub or_default : String → String → String
or_default value default = if value == "" then default else value

abbrev pub is_empty_list {ℓ} : {A : Type ℓ} → List A → Bool
is_empty_list [] = true
is_empty_list (x ∷ xs) = false

module _ (config : Config) where
  unfoldable pub unavailable_items : StoredOrder → List String
  unavailable_items order =
      select (λ id. member id config.stock_unavailable_item_ids) (item_ids order.items)

  unfoldable pub stock_mode : String
  stock_mode = lower (strip config.stock_module_mode)

  -- unavailable_item_ids or configured_mode in {…}
  unfoldable pub stock_blocks : StoredOrder → Bool
  unfolding unavailable_items stock_mode
  stock_blocks order =
      (if is_empty_list (unavailable_items order) then false else true)
      || member stock_mode ("item_not_possible" ∷ "unavailable" ∷ "failed" ∷ [])

  abbrev stock_metadata : StoredOrder → Dict Value → Dict Value
  stock_metadata order base =
      base
      ++ ("configured_mode", text (or_default stock_mode "validated"))
        ∷ ("requested_item_ids", texts (item_ids order.items))
        ∷ ("unavailable_item_ids", texts (unavailable_items order))
        ∷ []

  -- unavailable_item_ids or requested_item_ids[:1]
  abbrev blocked_items : StoredOrder → List String
  blocked_items order =
      if is_empty_list (unavailable_items order)
      then take 1 (item_ids order.items)
      else unavailable_items order

  abbrev blocked_metadata : StoredOrder → Dict Value → Dict Value
  blocked_metadata order base =
      stock_metadata order base ++ ("blocked_item_ids", texts (blocked_items order)) ∷ []

  abbrev pub item_not_possible : StoredOrder → Dict Value → EventArgs
  item_not_possible order base =
      failure "ITEM_NOT_POSSIBLE" stock_basic_module_id order.order_id
        (tagged "order" order.order_id "stock:basic") (tagged "stock" order.order_id "basic")
        "FAILED_PERMANENT" "ITEM_NOT_POSSIBLE" false (some "ORDER_ACCEPTED")
        (blocked_metadata order base)

  abbrev pub stock_needs_human : StoredOrder → Dict Value → EventArgs
  stock_needs_human order base =
      needs_human order.order_id (tagged "order" order.order_id "needs-human:stock")
        (tagged "human" order.order_id "stock") "high" "ITEM_NOT_POSSIBLE"
        (blocked_metadata order base)

  abbrev pub order_validated : StoredOrder → Dict Value → EventArgs
  order_validated order base =
      confirmed "ORDER_VALIDATED" stock_basic_module_id order.order_id
        (tagged "order" order.order_id "stock:basic") (tagged "stock" order.order_id "basic")
        (some "ORDER_ACCEPTED") (stock_metadata order base)

module _ (config : Config) (world : World) where
  unfoldable pub execute_stock_lane : StoredOrder → Exec (StoredOrder × Bool)
  execute_stock_lane order = do
    base ← lift (module_metadata config stock_basic_module_id)
    if stock_blocks config order
        then (do
          emit config world (item_not_possible config order base)
          emit config world (stock_needs_human config order base)
          step_to order "Order accepted. Stock check needs human attention." false)
        else (do
          emit config world (order_validated config order base)
          step_to order "Order accepted. Stock validated." true)
