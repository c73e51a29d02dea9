-- ===== src/Pilot/Lanes/Decisions.antt =====
-- How a lane decides, and the events that it records: what the lanes share.
pub mod Stock
pub mod Payments
use p4p.Prelude.{
  ℕ, String, ◌==◌, ◌≡◌, refl, sym, ap, ◌∙◌, arith, Bool, true, false, not, strip, lower, Option,
  none, some, List, [], ◌∷◌, ◌++◌, map, All, member, select, ◌≤◌, leb, leb→le, le→leb, inl, inr,
  ◌⊎◌, Bool-cases, clash,
}
use mathlib.Core.Path.{subst}
use mathlib.Core.List.{append-nil}
use p4p.Prelude.Result.{Result, ok, err}
use p4p.Pilot.Order.{OrderItem, StoredOrder, OrderStatusUpdate}
use p4p.Pilot.Config.{Config, World}
use p4p.Pilot.Store.{Store, Exec, Error}
use p4p.Pilot.Store.Orders.{update_order_status, update_order_payment_method, item_ids}
use p4p.Pilot.Store.Adds.{event_names, Adds, Added, Quiet, Adds-Quiet, Adds-after, Adds-if}
use p4p.Pilot.Record.Names.{Adds-emit}
use p4p.Pilot.Lanes.Common.{step_to, order_amount}
use p4p.Pilot.Lanes.Stock.{
  is_empty_list, unavailable_items, stock_mode, stock_blocks, execute_stock_lane,
}
use p4p.Pilot.Lanes.Cash.{cash_mode, cash_fails, execute_payment_cash_module}
use p4p.Pilot.Lanes.Godpay.{godpay_roll, godpay_accepts, execute_godpay_mock_module}

pub Quiet-update_order_status :
    (id : String) (u : OrderStatusUpdate) → Quiet (update_order_status id u)
unfolding update_order_status
Quiet-update_order_status id u s = ground arith

pub Quiet-update_order_payment_method :
    (id method : String) → Quiet (update_order_payment_method id method)
unfolding update_order_payment_method
Quiet-update_order_payment_method id method s = ground arith

pub Quiet-order_amount : (o : StoredOrder) → Quiet (order_amount o)
unfolding order_amount
Quiet-order_amount o s = ground arith

-- Where a lane returns: it allows the next step, `Good` holds, and it appended the first names; or
-- it does not, `Good` does not hold, and it appended the second ones.
abbrev pub Decides :
    Type 0 → List String → List String → Result Error (StoredOrder × Bool) → List String → Type 0
Decides Good going stopped (err x) new = Unit {0}
Decides Good going stopped (ok r) new =
    ((r.1 ≡ true) × (Good × (new ≡ going))) ⊎ ((r.1 ≡ false) × (¬ Good × (new ≡ stopped)))

-- The last step of a lane, after all of its events.
pub Adds-step_to :
    (Q : Result Error (StoredOrder × Bool) → List String → Type 0) (o : StoredOrder) (m : String)
    (b : Bool)
    → ((x : Error) → Q (err x) [])
    → ((u : StoredOrder) → Q (ok (u, b)) [])
    → Adds Q (step_to o m b)
Adds-step_to Q o m b k g =
    Adds-after Q _ _ (Quiet-update_order_status _ _) k
      λ u. record { run = λ s. ([], (sym (append-nil (event_names s)), g u)) }

pub goes_on :
    (Good : Type 0) (going stopped : List String) (u : StoredOrder)
    → Good
    → Decides Good going stopped (ok (u, true)) going
goes_on Good going stopped u good = inl (refl, (good, refl))

pub stops :
    (Good : Type 0) (going stopped : List String) (u : StoredOrder)
    → ¬ Good
    → Decides Good going stopped (ok (u, false)) stopped
stops Good going stopped u bad = inr (refl, (bad, refl))

-- The same, of the stores before and after the lane.
abbrev pub Decided :
    Type 0 → List String → List String → Store → Store → StoredOrder × Bool → Type 0
Decided Good going stopped s t r =
    ((r.1 ≡ true) × (Good × (event_names t ≡ event_names s ++ going)))
    ⊎ ((r.1 ≡ false) × (¬ Good × (event_names t ≡ event_names s ++ stopped)))

pub Decided-Added :
    (Good : Type 0) (going stopped : List String) (s : Store)
    (p : Result Error (StoredOrder × Bool) × Store) {r : StoredOrder × Bool}
    → Added (Decides Good going stopped) s p
    → p.0 ≡ ok r
    → Decided Good going stopped s p.1 r
Decided-Added Good going stopped s p {r} (new, (e, d)) h =
    elim (subst (λ q. Decides Good going stopped q new) h d) [
      | inl (a, (good, n)) ↦ inl (a, (good, e ∙ ap (λ l. event_names s ++ l) n))
      | inr (a, (bad, n)) ↦ inr (a, (bad, e ∙ ap (λ l. event_names s ++ l) n))
    ]
