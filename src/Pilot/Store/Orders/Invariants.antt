-- ===== src/Pilot/Store/Orders/Invariants.antt =====
-- What holds of the table `orders` after any request: the limits of the node, and the unique
-- identities of orders, status tokens and requests.
use p4p.Prelude.{
  ◌+◌, ◌≤◌, String, ◌==◌, ◌≡◌, refl, sym, ap, ◌∙◌, arith, Bool, true, false, ◌||◌, none, some, List,
  [], ◌∷◌, ◌++◌, any, inl, inr,
}
use p4p.Prelude.Result.{ok}
use p4p.Pilot.Order.{OrderRequest, StoredOrder, OrderRow, OrderPricingSnapshot}
use p4p.Pilot.Config.{Config, World}
use p4p.Pilot.Store.{Store}
use p4p.Pilot.Store.Orders.{
  find_order, has_request_id, count, is_active, is_pending, new_row, collides, create_order_once,
}
use p4p.Pilot.Store.Orders.Creation.{
  IsWithin, HasRoom, enforce_order_admission-ok, create_order_once-cases, ok-first,
}

-- The node's limits on orders in work and on orders that wait.
abbrev pub IsLimited : Config → Store → Type 0
IsLimited config s =
    (count is_active s.orders ≤ config.order_max_active)
    × (count is_pending s.orders ≤ config.order_max_pending)

-- Two rows share an identity.
abbrev pub clashes : OrderRow → OrderRow → Bool
clashes a b =
    a.order.order_id == b.order.order_id
    || a.order.status_token == b.order.status_token
    || a.order.client_request_id == b.order.client_request_id

-- No two rows share an identity.
abbrev pub IsUnique : List OrderRow → Type 0
IsUnique [] = Unit {0}
IsUnique (r ∷ rs) = (any (clashes r) rs ≡ false) × IsUnique rs

count-append :
    (p : OrderRow → Bool) (xs : List OrderRow) (r : OrderRow)
    → count p (xs ++ r ∷ []) ≤ count p xs + 1
count-append p [] r = ground arith
count-append p (x ∷ xs) r = ground (arith, count-append p xs r)

any-clashes-append :
    (x : OrderRow) (xs : List OrderRow) (r : OrderRow)
    → any (clashes x) xs ≡ false
    → clashes x r ≡ false
    → any (clashes x) (xs ++ r ∷ []) ≡ false
any-clashes-append x [] r h k = ground arith
any-clashes-append x (y ∷ xs) r h k = ground (arith, any-clashes-append x xs r)

module _ (config : Config) (world : World) where
  IsUnique-append :
      (xs : List OrderRow) (r : OrderRow)
      → IsUnique xs
      → find_order (has_request_id r.order.client_request_id) xs ≡ none
      → any (collides config world r.order.order_id r.order.status_token) xs ≡ false
      → IsUnique (xs ++ r ∷ [])
  IsUnique-append [] r u f c = (refl, tt)
  IsUnique-append (x ∷ xs) r (h, u) f c = (
    any-clashes-append x xs r h (ground arith),
    IsUnique-append xs r u (ground arith) (ground arith),
  )

  -- An order that a request creates is within the limits, its prices are those of the menu, and
  -- there was room for it.
  pub create_order_once-IsWithin :
      (i t : String) (p : OrderRequest) (s : Store) {o : StoredOrder}
      → (create_order_once config world i t p s).0 ≡ ok (o, true)
      → (pricing : OrderPricingSnapshot) × ((o.pricing_snapshot ≡ some pricing)
          × (IsWithin config p s pricing × HasRoom config s))
  create_order_once-IsWithin i t p s h = elim (create_order_once-cases config world i t p s) [
    | inl (r, (f, a)) ↦ absurd (ground (arith, h, ap (λ x. x.0) a))
    | inr (inl (x, e)) ↦ absurd (ground (arith, h, ap (λ x. x.0) e))
    | inr (inr (pricing, (f, (c, (e, d))))) ↦ (
      pricing,
      (
        ap (λ (x : StoredOrder). x.pricing_snapshot)
            (sym (ok-first config world (sym (ap (λ x. x.0) d) ∙ h))),
        enforce_order_admission-ok config p s e,
      ),
    )
  ]

  -- No request takes the node over its limits.
  pub create_order_once-IsLimited :
      (i t : String) (p : OrderRequest) (s : Store)
      → IsLimited config s
      → IsLimited config (create_order_once config world i t p s).1
  create_order_once-IsLimited i t p s (active, pending) =
      elim (create_order_once-cases config world i t p s) [
        | inl (r, (f, a)) ↦ rw a (active, pending)
        | inr (inl (x, e)) ↦ rw e (active, pending)
        | inr (inr (pricing, (f, (c, (e, d))))) ↦
            let row = new_row config world i t p pricing s.now in
            let (_, (more_active, more_pending)) = enforce_order_admission-ok config p s e in
            rw d (
              omega (arith, count-append is_active s.orders row),
              omega (arith, count-append is_pending s.orders row),
            )
      ]

  -- No request gives two orders the same id, the same status token or the same request id.
  pub create_order_once-IsUnique :
      (i t : String) (p : OrderRequest) (s : Store)
      → IsUnique s.orders
      → IsUnique (create_order_once config world i t p s).1.orders
  create_order_once-IsUnique i t p s u = elim (create_order_once-cases config world i t p s) [
    | inl (r, (f, a)) ↦ rw a u
    | inr (inl (x, e)) ↦ rw e u
    | inr (inr (pricing, (f, (c, (e, d))))) ↦
        rw d (IsUnique-append s.orders (new_row config world i t p pricing s.now) u f c)
  ]
