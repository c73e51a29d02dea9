-- ===== src/Pilot/Store/Orders.antt =====
-- The tables `orders` and `menu_items`: admission, creation and updates of orders, and the menu.
pub mod Creation
pub mod Invariants
use p4p.Prelude.{
  ℕ, ◌+◌, ◌*◌, String, ◌==◌, strip, lower, lower_ascii, trim, Bool, true, false, not, ◌&&◌, ◌||◌,
  Option, none, some, List, [], ◌∷◌, ◌++◌, map, length, any, member, select, leb, ltb,
  if◌then◌else◌,
}
use p4p.Prelude.Result.{Result, ok, err, require, ◌>>◌}
use p4p.Pilot.Order.{
  new, accepted, ready, OrderItem, OrderLineSnapshot, OrderPricingSnapshot, OrderRequest,
  StoredOrder, OrderStatusUpdate, OrderRow, MenuRow,
}
use p4p.Pilot.Config.{Config, World}
use p4p.Pilot.Store.{Store, Exec, Error, http, admission, integrity_error, gets}

abbrev pub find_order : (OrderRow → Bool) → List OrderRow → Option OrderRow
find_order p [] = none
find_order p (r ∷ rs) = if p r then some r else find_order p rs

abbrev pub has_order_id : String → OrderRow → Bool
has_order_id order_id r = r.order.order_id == order_id

abbrev pub has_request_id : String → OrderRow → Bool
has_request_id id r = r.order.client_request_id == id

abbrev pub order_of : Option OrderRow → Option StoredOrder
order_of none = none
order_of (some r) = some r.order

unfoldable pub get_order : String → Exec (Option StoredOrder)
get_order order_id = gets (λ s. order_of (find_order (has_order_id order_id) s.orders))

unfoldable pub get_order_by_status_token : String → Exec (Option StoredOrder)
get_order_by_status_token token =
    gets (λ s. order_of (find_order (λ (r : OrderRow). r.order.status_token == token) s.orders))

-- UPDATE orders SET … WHERE order_id = ?
abbrev pub update_row : String → (StoredOrder → StoredOrder) → List OrderRow → List OrderRow
update_row order_id f [] = []
update_row order_id f (r ∷ rs) =
    if r.order.order_id == order_id
    then record r { order = f r.order } ∷ rs
    else r ∷ update_row order_id f rs

-- `now + timedelta(minutes=…)` where minutes are given
abbrev ready_time : ℕ → Option ℕ → Option ℕ → Option ℕ
ready_time now none old = old
ready_time now (some minutes) old = some (now + 60 * minutes)

abbrev pub with_status : ℕ → OrderStatusUpdate → StoredOrder → StoredOrder
with_status now u o = record o {
  status = u.status;
  status_message = u.status_message;
  updated_at = now;
  estimated_ready = ready_time now u.estimated_ready_minutes o.estimated_ready;
}

unfoldable pub update_order_status : String → OrderStatusUpdate → Exec StoredOrder
update_order_status order_id u s = elim (find_order (has_order_id order_id) s.orders) [
  | none ↦ (err (http 404), s)
  | some r ↦ (
    ok (with_status s.now u r.order),
    record s { orders = update_row order_id (with_status s.now u) s.orders },
  )
]

abbrev pub with_payment_method : ℕ → String → StoredOrder → StoredOrder
with_payment_method now method o = record o { payment_method = method; updated_at = now }

unfoldable pub update_order_payment_method : String → String → Exec StoredOrder
update_order_payment_method order_id payment_method s =
    let method = strip payment_method in
    if method == ""
    then (err (http 400), s)
    else elim (find_order (has_order_id order_id) s.orders) [
      | none ↦ (err (http 404), s)
      | some r ↦ (
        ok (with_payment_method s.now method r.order),
        record s { orders = update_row order_id (with_payment_method s.now method) s.orders },
      )
    ]

-- `{row["id"]: row for row in rows}` over the active rows: the last one of an id.
abbrev pub menu_row : String → List MenuRow → Option MenuRow
menu_row id [] = none
menu_row id (m ∷ ms) = elim (menu_row id ms) [
  | some later ↦ some later
  | none ↦ if m.active && m.id == id then some m else none
]

-- `len(set(ids)) != len(ids)`
abbrev pub has_duplicates : List String → Bool
has_duplicates [] = false
has_duplicates (x ∷ xs) = member x xs || has_duplicates xs

abbrev pub item_ids : List OrderItem → List String
item_ids = map (λ (i : OrderItem). i.id)

abbrev pub total_units : List OrderItem → ℕ
total_units [] = 0
total_units (i ∷ is) = i.quantity + total_units is

abbrev price_line : OrderItem → MenuRow → OrderLineSnapshot
price_line i m = record {
  id = i.id;
  name = m.name;
  quantity = i.quantity;
  unit_price = m.price;
  line_total = m.price * i.quantity;
}

-- `none` where an item is not on the active menu.
abbrev pub snapshot_lines : List MenuRow → List OrderItem → Option (List OrderLineSnapshot)
snapshot_lines menu [] = some []
snapshot_lines menu (i ∷ is) = elim (menu_row i.id menu) [
  | none ↦ none
  | some m ↦ elim (snapshot_lines menu is) [ none ↦ none | some ls ↦ some (price_line i m ∷ ls) ]
]

abbrev pub total_value : List OrderLineSnapshot → ℕ
total_value [] = 0
total_value (l ∷ ls) = l.line_total + total_value ls

-- status IN ('new', 'accepted', 'ready')
abbrev pub is_active : OrderRow → Bool
is_active r = elim r.order.status [ new ↦ true | accepted ↦ true | ready ↦ true | _ ↦ false ]

-- status = 'new'
abbrev pub is_pending : OrderRow → Bool
is_pending r = elim r.order.status [ new ↦ true | _ ↦ false ]

-- lower(trim(customer_contact)), in SQL
unfoldable pub sql_contact : String → String
sql_contact contact = lower_ascii (trim contact)

abbrev pub is_pending_for : String → OrderRow → Bool
is_pending_for contact r = is_pending r && sql_contact r.order.customer_contact == contact

abbrev pub count : (OrderRow → Bool) → List OrderRow → ℕ
count p rs = length (select p rs)

abbrev pub below : ℕ → ℕ → String → Result Error (Unit {0})
below n limit reason = require (ltb n limit) (admission reason)

abbrev pub within : ℕ → ℕ → String → Result Error (Unit {0})
within n limit reason = require (leb n limit) (admission reason)

module _ (config : Config) where
  -- The checks behind the one for unknown items, and the snapshot.
  abbrev pub priced :
      OrderRequest → Store → Option (List OrderLineSnapshot) → Result Error OrderPricingSnapshot
  priced payload s none = err (http 400)
  priced payload s (some lines) = do
    within (total_value lines) config.order_max_value_minor "order_value_too_high"
    below (count is_active s.orders) config.order_max_active "restaurant_capacity_reached"
    below (count is_pending s.orders) config.order_max_pending "pending_queue_full"
    below (count (is_pending_for (lower (strip payload.customer_contact))) s.orders)
        config.order_max_pending_per_contact "contact_pending_limit"
    ok (record { currency = config.menu_currency; lines = lines; total_minor = total_value lines })

  unfoldable pub enforce_order_admission : OrderRequest → Store → Result Error OrderPricingSnapshot
  unfolding sql_contact
  enforce_order_admission payload s = do
    within (length payload.items) config.order_max_lines "too_many_lines"
    require (not (has_duplicates (item_ids payload.items))) (admission "duplicate_items")
    within (total_units payload.items) config.order_max_units "too_many_units"
    priced payload s (snapshot_lines s.menu_items payload.items)

module _ (config : Config) (world : World) where
  abbrev pub new_order : String → String → OrderRequest → OrderPricingSnapshot → ℕ → StoredOrder
  new_order order_id status_token payload pricing now = record {
    order_id = order_id;
    client_request_id = payload.client_request_id;
    status_token = status_token;
    customer_name = payload.customer_name;
    customer_contact = payload.customer_contact;
    fulfillment = payload.fulfillment;
    items = payload.items;
    pricing_snapshot = some pricing;
    note = payload.note;
    client_version = payload.client_version;
    status = new;
    payment_method = "pay_at_pickup";
    status_message = none;
    requested_at = now;
    updated_at = now;
    estimated_ready = some (now + 60 * 20);
  }

  -- The primary key and the unique index on the status token.
  abbrev pub collides : String → String → OrderRow → Bool
  collides order_id status_token r =
      r.order.order_id == order_id || r.order.status_token == status_token

  abbrev pub new_row : String → String → OrderRequest → OrderPricingSnapshot → ℕ → OrderRow
  new_row order_id status_token payload pricing now = record {
    order = new_order order_id status_token payload pricing now;
    request_fingerprint = world.order_request_fingerprint payload;
  }

  abbrev pub insert_order :
      String → String → OrderRequest → Result Error OrderPricingSnapshot → Exec (StoredOrder × Bool)
  insert_order order_id status_token payload (err e) s = (err e, s)
  insert_order order_id status_token payload (ok pricing) s =
      if any (collides order_id status_token) s.orders then (err integrity_error, s) else (
        ok (new_order order_id status_token payload pricing s.now, true),
        record s { orders = s.orders ++ new_row order_id status_token payload pricing s.now ∷ [] },
      )

  -- `order_id` and `status_token` are what the clock and `secrets` give.
  unfoldable pub create_order_once : String → String → OrderRequest → Exec (StoredOrder × Bool)
  unfolding enforce_order_admission
  create_order_once order_id status_token payload s =
      elim (find_order (has_request_id payload.client_request_id) s.orders) [
        | some r ↦
            if r.request_fingerprint == world.order_request_fingerprint payload
            then (ok (r.order, false), s)
            else (err (http 409), s)
        | none ↦
            insert_order order_id status_token payload (enforce_order_admission config payload s) s
      ]

-- The rows that `replace_menu` inserts, numbered from `index`.
abbrev numbered : ℕ → List MenuRow → List MenuRow
numbered index [] = []
numbered index (m ∷ ms) = record m { sort_order = index } ∷ numbered (index + 1) ms

-- A repeated id breaks the primary key, and the transaction leaves the old menu.
unfoldable pub replace_menu : List MenuRow → Exec (List MenuRow)
replace_menu items s =
    if has_duplicates (map (λ (m : MenuRow). m.id) items)
    then (err integrity_error, s)
    else (ok (numbered 0 items), record s { menu_items = numbered 0 items })
