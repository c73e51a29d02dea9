-- ===== src/Pilot/Store/Events/Once.antt =====
-- A record that is made once.
use p4p.Prelude.{
  String, str_eq_refl, ◌≡◌, refl, ap, ◌∙◌, arith, Bool, true, false, some, List, [], ◌∷◌, ◌++◌, any,
  Bool-cases, inl, inr,
}
use p4p.Prelude.Result.{ok}
use p4p.Core.Event.{ModuleResultEvent}
use p4p.Pilot.Store.{Store}
use p4p.Pilot.Store.Events.{id_or_empty, receipt_is, record_order_event_once}

-- The key of the event is among the receipts of its order.
abbrev pub has_receipt : ModuleResultEvent → String → Store → Bool
has_receipt e key s = any (receipt_is (id_or_empty e.order_id) key) s.order_event_receipts

any-receipt_is-append :
    (order_id key : String) (xs : List (String × String))
    → any (receipt_is order_id key) (xs ++ (order_id, key) ∷ []) ≡ true
any-receipt_is-append order_id key [] = rw (str_eq_refl order_id) (rw (str_eq_refl key) refl)
any-receipt_is-append order_id key (x ∷ xs) = ground (arith, any-receipt_is-append order_id key xs)

receipted :
    (e : ModuleResultEvent) (key : String) (s : Store)
    → e.idempotency_key ≡ some key
    → has_receipt e key s ≡ true
    → record_order_event_once e s ≡ (ok false, s)
unfolding record_order_event_once
receipted e key s k h = rw k (rw h refl)

-- The store with the event and its receipt.
abbrev pub receipt_given : ModuleResultEvent → String → Store → Store
receipt_given e key s = record s {
  order_event_receipts = s.order_event_receipts ++ (id_or_empty e.order_id, key) ∷ [];
  order_events = s.order_events ++ e ∷ [];
}

not_receipted :
    (e : ModuleResultEvent) (key : String) (s : Store)
    → e.idempotency_key ≡ some key
    → has_receipt e key s ≡ false
    → (record_order_event_once e s).1 ≡ receipt_given e key s
unfolding record_order_event_once
not_receipted e key s k h = ground (arith, k, h)

-- After an event with an idempotency key was recorded once, the same call for any event of the
-- order with that key records nothing.
pub record_order_event_once-repeat :
    (e f : ModuleResultEvent) (key : String) (s : Store)
    → e.idempotency_key ≡ some key
    → f.idempotency_key ≡ some key
    → f.order_id ≡ e.order_id
    → record_order_event_once f (record_order_event_once e s).1
      ≡ (ok false, (record_order_event_once e s).1)
record_order_event_once-repeat e f key s k l same_order = elim (Bool-cases (has_receipt e key s)) [
  | inl h ↦ rw (receipted e key s k h) (
      receipted f key s l
        (ap (λ i. any (receipt_is (id_or_empty i) key) s.order_event_receipts) same_order ∙ h))
  | inr h ↦ receipted f key (record_order_event_once e s).1 l (
      ap (has_receipt f key) (not_receipted e key s k h)
      ∙ (ap
            (λ i.
              any (receipt_is (id_or_empty i) key)
                (s.order_event_receipts ++ (id_or_empty e.order_id, key) ∷ []))
            same_order
          ∙ any-receipt_is-append (id_or_empty e.order_id) key s.order_event_receipts))
]
