-- ===== src/Pilot/Store/Orders/Creation.antt =====
-- What `create_order_once` promises: the same request gives one order, an admitted order is within
-- the limits, and the identities stay unique.
use p4p.Prelude.{
  ◌≤◌, ◌<◌, String, ◌==◌, str_eq_refl, ◌≡◌, refl, sym, ap, ◌∙◌, arith, Bool, true, false, Option,
  none, some, List, [], ◌∷◌, ◌++◌, length, any, Bool-cases, Option-cases, inl, inr, ◌⊎◌,
  if◌then◌else◌,
}
use p4p.Prelude.Result.{Result, ok, err}
use p4p.Pilot.Order.{OrderRequest, StoredOrder, OrderRow, OrderPricingSnapshot, OrderLineSnapshot}
use p4p.Pilot.Config.{Config, World}
use p4p.Pilot.Store.{Store, Error, http, integrity_error}
use p4p.Pilot.Store.Orders.{
  find_order, has_request_id, count, is_active, is_pending, total_units, total_value, item_ids,
  has_duplicates, snapshot_lines, priced, enforce_order_admission, new_order, new_row,
  create_order_once, collides,
}

-- A request whose items and prices are within the limits, with the prices of the menu.
abbrev pub IsWithin : Config → OrderRequest → Store → OrderPricingSnapshot → Type 0
IsWithin config p s pricing =
    (length p.items ≤ config.order_max_lines)
    × ((has_duplicates (item_ids p.items) ≡ false)
        × ((total_units p.items ≤ config.order_max_units)
            × ((pricing.total_minor ≤ config.order_max_value_minor)
                × ((snapshot_lines s.menu_items p.items ≡ some pricing.lines)
                    × (pricing.total_minor ≡ total_value pricing.lines)))))

-- There is room for one more order.
abbrev pub HasRoom : Config → Store → Type 0
HasRoom config s =
    (count is_active s.orders < config.order_max_active)
    × (count is_pending s.orders < config.order_max_pending)

module _ (config : Config) where
  priced-ok :
      (p : OrderRequest) (s : Store) (ls : Option (List OrderLineSnapshot))
      {pricing : OrderPricingSnapshot}
      → priced config p s ls ≡ ok pricing
      → (ls ≡ some pricing.lines)
        × ((pricing.total_minor ≡ total_value pricing.lines)
            × ((pricing.total_minor ≤ config.order_max_value_minor) × HasRoom config s))
  priced-ok p s none h = absurd (ground arith)
  priced-ok p s (some ls) h =
      (ground arith, (ground arith, (ground arith, (ground arith, ground arith))))

  pub enforce_order_admission-ok :
      (p : OrderRequest) (s : Store) {pricing : OrderPricingSnapshot}
      → enforce_order_admission config p s ≡ ok pricing
      → IsWithin config p s pricing × HasRoom config s
  unfolding enforce_order_admission
  enforce_order_admission-ok p s {pricing} h =
      let (lines, (total, (value, room))) =
        priced-ok p s (snapshot_lines s.menu_items p.items) {pricing = pricing} (ground arith) in
      ((ground arith, (ground arith, (ground arith, (value, (lines, total))))), room)

find_order-append :
    (p : OrderRow → Bool) (xs : List OrderRow) (r : OrderRow)
    → find_order p xs ≡ none
    → p r ≡ true
    → find_order p (xs ++ r ∷ []) ≡ some r
find_order-append p [] r h k = rw k refl
find_order-append p (x ∷ xs) r h k = ground (arith, find_order-append p xs r)

module _ (config : Config) (world : World) where
  -- The store with the row of a new order.
  abbrev pub with_order : String → String → OrderRequest → OrderPricingSnapshot → Store → Store
  with_order i t p pricing s = record s {
    orders = s.orders ++ new_row config world i t p pricing s.now ∷ [];
  }

  -- The order that is there answers a request with the same identity, if it is the same request.
  abbrev pub answer : OrderRow → OrderRequest → Result Error (StoredOrder × Bool)
  answer r p =
      if r.request_fingerprint == world.order_request_fingerprint p
      then ok (r.order, false)
      else err (http 409)

  abbrev pub Answered : String → String → OrderRequest → Store → Type 0
  Answered i t p s =
      (r : OrderRow) × ((find_order (has_request_id p.client_request_id) s.orders ≡ some r)
        × (create_order_once config world i t p s ≡ (answer r p, s)))

  abbrev pub Refused : String → String → OrderRequest → Store → Type 0
  Refused i t p s = (x : Error) × (create_order_once config world i t p s ≡ (err x, s))

  abbrev pub Created : String → String → OrderRequest → Store → OrderPricingSnapshot → Type 0
  Created i t p s pricing =
      (find_order (has_request_id p.client_request_id) s.orders ≡ none)
      × ((any (collides config world i t) s.orders ≡ false)
          × ((enforce_order_admission config p s ≡ ok pricing)
              × (create_order_once config world i t p s ≡ (
                ok (new_order config world i t p pricing s.now, true),
                with_order i t p pricing s,
              ))))

  answered :
      (i t : String) (p : OrderRequest) (s : Store) {r : OrderRow}
      → find_order (has_request_id p.client_request_id) s.orders ≡ some r
      → create_order_once config world i t p s ≡ (answer r p, s)
  unfolding create_order_once
  answered i t p s {r} f =
      elim (Bool-cases (r.request_fingerprint == world.order_request_fingerprint p)) [
        | inl b ↦ rw (f, create_order_once) (rw b refl)
        | inr b ↦ rw (f, create_order_once) (rw b refl)
      ]

  -- A request is answered by the order that is there, refused, or admitted as a new order.
  pub create_order_once-cases :
      (i t : String) (p : OrderRequest) (s : Store)
      → Answered i t p s
        ⊎ (Refused i t p s ⊎ ((pricing : OrderPricingSnapshot) × Created i t p s pricing))
  unfolding create_order_once
  create_order_once-cases i t p s =
      elim (Option-cases (find_order (has_request_id p.client_request_id) s.orders)) [
        | inr (r, f) ↦ inl (r, (f, answered i t p s f))
        | inl f ↦ inr (go f (enforce_order_admission config p s) refl)
      ]
    where
      go :
          find_order (has_request_id p.client_request_id) s.orders ≡ none
          → (r : Result Error OrderPricingSnapshot) → enforce_order_admission config p s ≡ r
          → Refused i t p s ⊎ ((pricing : OrderPricingSnapshot) × Created i t p s pricing)
      go f (err x) e = inl (x, rw (f, create_order_once) (rw e refl))
      go f (ok pricing) e = elim (Bool-cases (any (collides config world i t) s.orders)) [
        | inl c ↦ inl (integrity_error, rw (f, create_order_once) (rw e (rw c refl)))
        | inr c ↦ inr (pricing, (f, (c, (e, rw (f, create_order_once) (rw e (rw c refl))))))
      ]

  find-new :
      (i t : String) (p : OrderRequest) (s : Store) (pricing : OrderPricingSnapshot)
      → find_order (has_request_id p.client_request_id) s.orders ≡ none
      → find_order (has_request_id p.client_request_id) (with_order i t p pricing s).orders
        ≡ some (new_row config world i t p pricing s.now)
  find-new i t p s pricing f =
      find_order-append (has_request_id p.client_request_id) s.orders
        (new_row config world i t p pricing s.now) f (str_eq_refl p.client_request_id)

  first_or : StoredOrder → Result Error (StoredOrder × Bool) → StoredOrder
  first_or default (ok (o, _)) = o
  first_or default (err x) = default

  pub ok-first :
      {a b : StoredOrder} {c d : Bool}
      → ◌≡◌ {A = Result Error (StoredOrder × Bool)} (ok (a, c)) (ok (b, d))
      → a ≡ b
  unfolding first_or
  ok-first {a} h = ap (first_or a) h

  answer-new :
      (i t : String) (p : OrderRequest) (s : Store) (pricing : OrderPricingSnapshot)
      → answer (new_row config world i t p pricing s.now) p
        ≡ ok (new_order config world i t p pricing s.now, false)
  answer-new i t p s pricing = rw (str_eq_refl (world.order_request_fingerprint p)) refl

  answer-ok :
      (r : OrderRow) (p : OrderRequest) {o : StoredOrder} {created : Bool}
      → answer r p ≡ ok (o, created)
      → answer r p ≡ ok (o, false)
  answer-ok r p h = ground arith

  -- The same request again gives the same order, not created, and leaves the store as it is,
  -- whatever ids the clock and the random source would give to a new order.
  pub create_order_once-repeat :
      (i t j u : String) (p : OrderRequest) (s : Store) {o : StoredOrder} {created : Bool}
      → (create_order_once config world i t p s).0 ≡ ok (o, created)
      → create_order_once config world j u p (create_order_once config world i t p s).1
        ≡ (ok (o, false), (create_order_once config world i t p s).1)
  create_order_once-repeat i t j u p s {o} {created} h = elim (create_order_once-cases i t p s) [
    | inl (r, (f, a)) ↦
        rw a (answered j u p s f ∙ ap (λ x. (x, s)) (answer-ok r p (sym (ap (λ x. x.0) a) ∙ h)))
    | inr (inl (x, e)) ↦ absurd (ground (arith, h, ap (λ x. x.0) e))
    | inr (inr (pricing, (f, (c, (e, d))))) ↦ rw d (
        answered j u p (with_order i t p pricing s) (find-new i t p s pricing f)
        ∙ (ap (λ x. (x, with_order i t p pricing s)) (answer-new i t p s pricing)
            ∙ ap (λ x. (ok (x, false), with_order i t p pricing s))
                (ok-first (sym (ap (λ x. x.0) d) ∙ h))))
  ]
