-- ===== src/Pilot/Store/Keeps.antt =====
-- Code that leaves the outbox, the state, the menu and the clock as they are.
use p4p.Prelude.{String, ◌≡◌, refl, ◌∙◌, arith, Bool, true, false, if◌then◌else◌}
use p4p.Prelude.Result.{Result, ok, err}
use p4p.Core.Event.{ModuleResultEvent}
use p4p.Pilot.Order.{OrderStatusUpdate}
use p4p.Pilot.Store.{Store, Exec, continue, ◌>>=◌, Error}
use p4p.Pilot.Store.Orders.{update_order_status, update_order_payment_method}
use p4p.Pilot.Store.Events.{list_order_events, record_order_event}

-- The second store has the outbox, the state, the menu and the clock of the first.
pub record Kept (s t : Store) : Type 0 where
  pub outbox : t.outbox ≡ s.outbox
  pub state : t.state ≡ s.state
  pub menu_items : t.menu_items ≡ s.menu_items
  pub now : t.now ≡ s.now

abbrev pub Kept-refl : (s : Store) → Kept s s
Kept-refl s = record { outbox = refl; state = refl; menu_items = refl; now = refl }

abbrev pub Kept-trans : {s t u : Store} → Kept s t → Kept t u → Kept s u
Kept-trans h k = record {
  outbox = k.outbox ∙ h.outbox;
  state = k.state ∙ h.state;
  menu_items = k.menu_items ∙ h.menu_items;
  now = k.now ∙ h.now;
}

Kept-continue :
    {A B : Type 0} {s t : Store} (r : Result Error A) (f : A → Exec B)
    → Kept s t
    → ((a : A) → Kept t (f a t).1)
    → Kept s (continue r f t).1
Kept-continue (ok a) f h k = Kept-trans h (k a)
Kept-continue (err e) f h k = h

abbrev pub Keeps : {A : Type 0} → Exec A → Type 0
Keeps m = (s : Store) → Kept s (m s).1

pub Keeps-bind :
    {A B : Type 0} (m : Exec A) (f : A → Exec B)
    → Keeps m
    → ((a : A) → Keeps (f a))
    → Keeps (m >>= f)
unfolding ◌>>=◌
Keeps-bind m f h k s = Kept-continue (m s).0 f (h s) λ a. k a (m s).1

pub Keeps-if :
    {A : Type 0} (b : Bool) (m n : Exec A) → Keeps m → Keeps n → Keeps (if b then m else n)
Keeps-if true m n h k = h
Keeps-if false m n h k = k

pub Kept-if :
    {A : Type 0} (b : Bool) {s : Store} (r q : Result Error A × Store)
    → Kept s r.1
    → Kept s q.1
    → Kept s (if b then r else q).1
Kept-if true r q h k = h
Kept-if false r q h k = k

pub Keeps-update_order_status :
    (id : String) (u : OrderStatusUpdate) → Keeps (update_order_status id u)
unfolding update_order_status
Keeps-update_order_status id u s = record {
  outbox = ground arith;
  state = ground arith;
  menu_items = ground arith;
  now = ground arith;
}

pub Keeps-update_order_payment_method :
    (id method : String) → Keeps (update_order_payment_method id method)
unfolding update_order_payment_method
Keeps-update_order_payment_method id method s = record {
  outbox = ground arith;
  state = ground arith;
  menu_items = ground arith;
  now = ground arith;
}

pub Keeps-list_order_events : (id : String) → Keeps (list_order_events id)
unfolding list_order_events
Keeps-list_order_events id s = Kept-refl _

pub Keeps-record_order_event : (e : ModuleResultEvent) → Keeps (record_order_event e)
unfolding record_order_event
Keeps-record_order_event e s = record { outbox = refl; state = refl; menu_items = refl; now = refl }
