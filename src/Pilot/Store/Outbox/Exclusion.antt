-- ===== src/Pilot/Store/Outbox/Exclusion.antt =====
-- Of all the workers that claim an action, at most one gets it, until it is given back.
use p4p.Prelude.{String, ◌≡◌, Bool, true, false, List}
use p4p.Prelude.Result.{ok}
use p4p.Pilot.Store.{Store, OrderAction}
use p4p.Pilot.Store.Outbox.{claim_order_action}
use p4p.Pilot.Store.Outbox.Held.{
  OutboxCall, after_all, none_releases, held-after_all, held-claimed, claim-held,
}

-- Once a claim of an action succeeded, every later claim of it fails, whatever calls on the outbox
-- (by any worker, the operator, or a restart) come in between, as long as none of these calls
-- finishes the action as failed or pending; and the failed claim leaves the store as it is.
pub claimed-once :
    (order_id id lane : String) (s : Store) {a : OrderAction}
    → (claim_order_action order_id id lane s).0 ≡ ok (a, true)
    → (cs : List OutboxCall) → none_releases id cs ≡ true
    → (other_order other_lane : String) {b : OrderAction} {claimed : Bool}
    → let t = after_all cs (claim_order_action order_id id lane s).1 in
      (claim_order_action other_order id other_lane t).0 ≡ ok (b, claimed)
      → (claimed ≡ false) × ((claim_order_action other_order id other_lane t).1 ≡ t)
claimed-once order_id id lane s first cs free other_order other_lane again =
    claim-held other_order id other_lane (after_all cs (claim_order_action order_id id lane s).1)
      (held-after_all id cs (claim_order_action order_id id lane s).1 free
        (held-claimed order_id id lane s first))
      again
