-- ===== src/Pilot/Lanes/Decisions/Stock.antt =====
-- What the stock lane decides, and the events that it records.
use p4p.Prelude.{
  String, ◌==◌, ◌≡◌, refl, arith, Bool, true, false, strip, lower, List, [], ◌∷◌, All, member,
  select, inl, inr, Bool-cases, clash,
}
use p4p.Prelude.Result.{ok}
use p4p.Pilot.Order.{OrderItem, StoredOrder}
use p4p.Pilot.Config.{Config, World}
use p4p.Pilot.Store.{Store}
use p4p.Pilot.Store.Orders.{item_ids}
use p4p.Pilot.Store.Adds.{Adds, Adds-after, Adds-if}
use p4p.Pilot.Record.Names.{Adds-emit}
use p4p.Pilot.Lanes.Stock.{
  is_empty_list, unavailable_items, stock_mode, stock_blocks, execute_stock_lane,
}
use p4p.Pilot.Lanes.Decisions.{Adds-step_to, Decides, goes_on, stops, Decided, Decided-Added}

-- The items of the order are all to be had, and the configured mode is none of those that block.
abbrev pub IsAvailable : Config → StoredOrder → Type 0
IsAvailable config o =
    All (λ (i : OrderItem). member i.id config.stock_unavailable_item_ids ≡ false) o.items
    × (((lower (strip config.stock_module_mode) == "item_not_possible") ≡ false)
        × (((lower (strip config.stock_module_mode) == "unavailable") ≡ false)
            × ((lower (strip config.stock_module_mode) == "failed") ≡ false)))

none-selected :
    (p : String → Bool) (is : List OrderItem)
    → is_empty_list (select p (item_ids is)) ≡ true
    → All (λ (i : OrderItem). p i.id ≡ false) is
none-selected p [] h = tt
none-selected p (i ∷ is) h = elim (Bool-cases (p i.id)) [
  | inl b ↦ absurd (ground arith)
  | inr b ↦ (b, none-selected p is (ground arith))
]

selected-none :
    (p : String → Bool) (is : List OrderItem)
    → All (λ (i : OrderItem). p i.id ≡ false) is
    → is_empty_list (select p (item_ids is)) ≡ true
selected-none p [] h = refl
selected-none p (i ∷ is) (b, h) = ground (arith, selected-none p is h)

module _ (config : Config) where
  stock_blocks-IsAvailable :
      (o : StoredOrder) → stock_blocks config o ≡ false → IsAvailable config o
  unfolding stock_blocks unavailable_items stock_mode
  stock_blocks-IsAvailable o h = (
    none-selected (λ id. member id config.stock_unavailable_item_ids) o.items (ground arith),
    (ground arith, (ground arith, ground arith)),
  )

  IsAvailable-stock_blocks :
      (o : StoredOrder) → IsAvailable config o → stock_blocks config o ≡ false
  unfolding stock_blocks unavailable_items stock_mode
  IsAvailable-stock_blocks o (all, (a, (b, d))) = ground (
    arith,
    a,
    b,
    d,
    selected-none (λ id. member id config.stock_unavailable_item_ids) o.items all,
  )

module _ (config : Config) (world : World) where
  execute_stock_lane-Decides :
      (o : StoredOrder)
      → Adds
          (Decides
            (IsAvailable config o)
            ("ORDER_VALIDATED" ∷ [])
            ("ITEM_NOT_POSSIBLE" ∷ "ORDER_NEEDS_HUMAN" ∷ []))
          (execute_stock_lane config world o)
  unfolding execute_stock_lane
  execute_stock_lane-Decides o =
      Adds-after _ _ _ (λ s. refl) (λ x. tt)
        λ base.
          Adds-if _ (stock_blocks config o) _ _
            (λ b.
              Adds-emit config world _ _ _ (λ x. tt)
                λ e.
                  Adds-emit config world _ _ _ (λ x. tt)
                    λ e2.
                      Adds-step_to _ o _ _ (λ x. tt)
                        λ u.
                          stops (IsAvailable config o) _ _ u
                            λ good. clash b (IsAvailable-stock_blocks config o good))
            (λ b.
              Adds-emit config world _ _ _ (λ x. tt)
                λ e.
                  Adds-step_to _ o _ _ (λ x. tt)
                    λ u. goes_on (IsAvailable config o) _ _ u (stock_blocks-IsAvailable config o b))

  -- Where the stock lane returns: it allows the next step, each item of the order is to be had and
  -- the configured mode is not item_not_possible, unavailable or failed, and it recorded
  -- ORDER_VALIDATED alone; or it does not allow it, that does not hold, and it recorded
  -- ITEM_NOT_POSSIBLE and then ORDER_NEEDS_HUMAN.
  pub execute_stock_lane-decides :
      (o : StoredOrder) (s : Store) {r : StoredOrder × Bool}
      → (execute_stock_lane config world o s).0 ≡ ok r
      → Decided
          (IsAvailable config o)
          ("ORDER_VALIDATED" ∷ [])
          ("ITEM_NOT_POSSIBLE" ∷ "ORDER_NEEDS_HUMAN" ∷ [])
          s
          (execute_stock_lane config world o s).1
          r
  execute_stock_lane-decides o s h =
      Decided-Added _ _ _ s (execute_stock_lane config world o s)
        ((execute_stock_lane-Decides o).run s) h
