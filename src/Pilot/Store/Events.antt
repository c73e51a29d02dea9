-- ===== src/Pilot/Store/Events.antt =====
-- The table `order_events` and the receipts that make a record idempotent.
pub mod Once
use p4p.Prelude.{
  ℕ, String, ◌==◌, Bool, true, false, ◌&&◌, Option, none, some, List, [], ◌∷◌, ◌++◌, any, select,
  same, take, if◌then◌else◌,
}
use p4p.Prelude.Result.{ok}
use p4p.Core.Event.{ModuleResultEvent}
use p4p.Pilot.Store.{Store, Exec, gets}

abbrev pub events_limit : ℕ
events_limit = 100

-- `event.order_id or ""`
abbrev pub id_or_empty : Option String → String
id_or_empty none = ""
id_or_empty (some i) = i

-- Every event of the order, the oldest first.
abbrev pub events_of : String → List ModuleResultEvent → List ModuleResultEvent
events_of order_id = select (λ (e : ModuleResultEvent). same e.order_id (some order_id))

-- SELECT … WHERE order_id = ? ORDER BY id ASC LIMIT 100
unfoldable pub listed_events : String → Store → List ModuleResultEvent
listed_events order_id s = take events_limit (events_of order_id s.order_events)

unfoldable pub list_order_events : String → Exec (List ModuleResultEvent)
unfolding listed_events
list_order_events order_id = gets (listed_events order_id)

unfoldable pub record_order_event : ModuleResultEvent → Exec ModuleResultEvent
record_order_event event s = (ok event, record s { order_events = s.order_events ++ event ∷ [] })

abbrev receipt_is : String → String → String × String → Bool
receipt_is order_id key (i, k) = i == order_id && k == key

-- INSERT OR IGNORE leaves out a key that is NULL (the column is NOT NULL) or already there.
unfoldable pub record_order_event_once : ModuleResultEvent → Exec Bool
record_order_event_once event s = elim event.idempotency_key [
  | none ↦ (ok false, s)
  | some key ↦
      let order_id = id_or_empty event.order_id in
      if any (receipt_is order_id key) s.order_event_receipts then (ok false, s) else (
        ok true,
        record s {
          order_event_receipts = s.order_event_receipts ++ (order_id, key) ∷ [];
          order_events = s.order_events ++ event ∷ [];
        },
      )
]
