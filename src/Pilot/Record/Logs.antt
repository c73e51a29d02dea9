-- ===== src/Pilot/Record/Logs.antt =====
-- Recording an event: what is written, and that the log of an order stays a path of its contract.
use p4p.Prelude.{
  ℕ, String, ◌==◌, eq_iff, ◌≡◌, refl, sym, ap, arith, true, false, Option, none, some, List, [],
  ◌∷◌, ◌++◌, ◌≤◌, length, str_eq_refl, take_of_le, same, Bool-cases, inl, inr, ◌⊎◌,
}
use p4p.Prelude.Result.{Result, ok, err}
use p4p.Prelude.Dict.{Dict}
use p4p.Core.Event.{ModuleResultEvent, Value}
use p4p.Core.Flow.Contract.{build_pilot_order_flow_contract}
use p4p.Core.Flow.Base.{FlowContract}
use p4p.Core.Flow.Contract.Built.{IsTerminal, build_terminal}
use p4p.Core.Flow.Chain.{IsFlow, validate_flow-IsFlow}
use p4p.Core.Flow.Validate.{
  FlowError, validate_flow, validate_pilot_order_event_flow, previous_name,
}
use p4p.Core.Flow.Validate.Accepted.{validate_flow-refuses}
use p4p.Pilot.Config.{Config, World}
use p4p.Pilot.Store.{Store, Error, ◌>>=◌}
use p4p.Pilot.Store.Events.{
  id_or_empty, events_of, events_limit, listed_events, list_order_events, record_order_event,
}
use p4p.Pilot.Modules.{effective_flow_module_ids}
use p4p.Pilot.Record.{
  EventArgs, flow_check, flow_result, record_order_flow_event, built_event, build_result_event,
  emit, checked_event, after_contract, build_event_metadata, assert_module_event_contract,
}

flow_result-ok : (r : Result FlowError (Unit {0})) → flow_result r ≡ ok tt → r ≡ ok tt
flow_result-ok (ok u) h = refl
flow_result-ok (err e) h = absurd (ground arith)

checked_event-names :
    (a : EventArgs) (now : ℕ) (r : Result Error (Dict Value)) {e : ModuleResultEvent}
    → checked_event a now r ≡ ok e
    → (e.event ≡ a.event) × (e.order_id ≡ some a.order_id)
checked_event-names a now (err x) h = absurd (ground arith)
checked_event-names a now (ok m) h = (ground arith, ground arith)

after_contract-names :
    (a : EventArgs) (now : ℕ) (r : Result Error (Unit {0})) {e : ModuleResultEvent}
    → after_contract a now r ≡ ok e
    → (e.event ≡ a.event) × (e.order_id ≡ some a.order_id)
after_contract-names a now (err x) h = absurd (ground arith)
after_contract-names a now (ok u) h =
    checked_event-names a now (build_event_metadata a.phase a.metadata a.trigger) h

-- The store with the event at the end of the log.
abbrev pub logged : ModuleResultEvent → Store → Store
logged e s = record s { order_events = s.order_events ++ e ∷ [] }

module _ (config : Config) (world : World) where
  abbrev pub contract_of : Store → FlowContract
  contract_of s =
      build_pilot_order_flow_contract world.reference_catalog (effective_flow_module_ids config s)
        config.manifests

  -- The check that stands before the insert.
  abbrev pub flow_checked : ModuleResultEvent → Store → Result Error (Unit {0})
  flow_checked e s = flow_check config world (listed_events (id_or_empty e.order_id) s) e s

  -- An event is refused and nothing is written, or it passes the check and is appended.
  pub record_order_flow_event-cases :
      (e : ModuleResultEvent) (s : Store)
      → ((x : Error) × (record_order_flow_event config world e s ≡ (err x, s)))
        ⊎ ((flow_checked e s ≡ ok tt)
            × (record_order_flow_event config world e s ≡ (ok e, logged e s)))
  unfolding record_order_flow_event ◌>>=◌ list_order_events record_order_event
  record_order_flow_event-cases e s = go (flow_checked e s) refl
    where
      go :
          (r : Result Error (Unit {0}))
          → flow_checked e s ≡ r
          → ((x : Error) × (record_order_flow_event config world e s ≡ (err x, s)))
            ⊎ ((flow_checked e s ≡ ok tt)
                × (record_order_flow_event config world e s ≡ (ok e, logged e s)))
      go (err x) h = inl (x, rw h refl)
      go (ok u) h = inr (h, rw h refl)

  flow_checked-valid :
      (e : ModuleResultEvent) (s : Store)
      → flow_checked e s ≡ ok tt
      → validate_flow (contract_of s) (listed_events (id_or_empty e.order_id) s) e ≡ ok tt
  unfolding flow_check validate_pilot_order_event_flow
  flow_checked-valid e s h = flow_result-ok _ h

  -- All events of an order, along the contract in force.
  abbrev pub InFlow : String → Store → Type 0
  InFlow order_id s = IsFlow (contract_of s) (events_of order_id s.order_events)

  listed-all :
      (order_id : String) (s : Store)
      → length (events_of order_id s.order_events) ≤ events_limit
      → listed_events order_id s ≡ events_of order_id s.order_events
  unfolding listed_events
  listed-all order_id s h = take_of_le events_limit (events_of order_id s.order_events) h

  events_of-own :
      (order_id : String) (e : ModuleResultEvent) (es : List ModuleResultEvent)
      → e.order_id ≡ some order_id
      → events_of order_id (es ++ e ∷ []) ≡ events_of order_id es ++ e ∷ []
  events_of-own order_id e [] h = rw h (rw (str_eq_refl order_id) refl)
  events_of-own order_id e (x ∷ es) h = ground (arith, events_of-own order_id e es h)

  events_of-other :
      (order_id : String) (e : ModuleResultEvent) (es : List ModuleResultEvent)
      → same e.order_id (some order_id) ≡ false
      → events_of order_id (es ++ e ∷ []) ≡ events_of order_id es
  events_of-other order_id e [] h = rw h refl
  events_of-other order_id e (x ∷ es) h = ground (arith, events_of-other order_id e es h)

  logged-InFlow :
      (order_id : String) (e : ModuleResultEvent) (s : Store)
      → length (events_of order_id s.order_events) ≤ events_limit
      → InFlow order_id s
      → e.order_id ≡ some order_id
      → flow_checked e s ≡ ok tt
      → InFlow order_id (logged e s)
  unfolding effective_flow_module_ids
  logged-InFlow order_id e s short log own h = rw (events_of-own order_id e s.order_events own) (
      validate_flow-IsFlow (contract_of s) (events_of order_id s.order_events) e log (
        rw (sym (listed-all order_id s short))
          (rw (sym (ap id_or_empty own)) (flow_checked-valid e s h))))

  logged-other :
      (order_id : String) (e : ModuleResultEvent) (s : Store)
      → InFlow order_id s
      → same e.order_id (some order_id) ≡ false
      → InFlow order_id (logged e s)
  unfolding effective_flow_module_ids
  logged-other order_id e s log other = rw (events_of-other order_id e s.order_events other) log

  same-own :
      (i : Option String) (order_id : String) → same i (some order_id) ≡ true → i ≡ some order_id
  same-own none order_id h = absurd (ground arith)
  same-own (some i) order_id h = ap some ((eq_iff i order_id).0 h)

  -- As long as an order has at most 100 events, its log stays a path of its contract, whatever
  -- event is recorded or refused, of this order or of another.
  pub record_order_flow_event-InFlow :
      (order_id : String) (e : ModuleResultEvent) (s : Store)
      → length (events_of order_id s.order_events) ≤ events_limit
      → InFlow order_id s
      → InFlow order_id (record_order_flow_event config world e s).1
  record_order_flow_event-InFlow order_id e s short log = elim (record_order_flow_event-cases e s) [
    | inl (x, h) ↦ rw h log
    | inr (c, h) ↦ elim (Bool-cases (same e.order_id (some order_id))) [
      | inl own ↦ rw h (logged-InFlow order_id e s short log (same-own e.order_id order_id own) c)
      | inr other ↦ rw h (logged-other order_id e s log other)
    ]
  ]

  pub built_event-names :
      (a : EventArgs) (now : ℕ) {e : ModuleResultEvent}
      → built_event config world a now ≡ ok e
      → (e.event ≡ a.event) × (e.order_id ≡ some a.order_id)
  unfolding built_event
  built_event-names a now h =
      after_contract-names a now (assert_module_event_contract config world a) h

  -- The order is in human hands, or its print is confirmed.
  abbrev pub IsClosed : String → Store → Type 0
  IsClosed order_id s =
      (last : String) × ((previous_name (listed_events order_id s) ≡ some last) × IsTerminal last)

  record-closed :
      (e : ModuleResultEvent) (order_id : String) (s : Store)
      → e.order_id ≡ some order_id
      → (e.event == "ORDER_STATUS_VIEWED") ≡ false
      → IsClosed order_id s
      → (x : Error) × (record_order_flow_event config world e s ≡ (err x, s))
  record-closed e order_id s own seen (last, (p, t)) = elim (record_order_flow_event-cases e s) [
    | inl r ↦ r
    | inr (c, h) ↦
        let (x, r) =
          validate_flow-refuses (contract_of s) (listed_events (id_or_empty e.order_id) s) e seen (
            rw own (
              rw p (
                build_terminal world.reference_catalog (effective_flow_module_ids config s)
                  config.manifests last e.event t))) in
        absurd (ground (arith, r, flow_checked-valid e s c))
  ]

  -- Once the last flow event of an order is ORDER_NEEDS_HUMAN or PRINT_SUCCESS_CONFIRMED, to build
  -- and record an event of the order by build_result_event and record_order_flow_event, as the lanes
  -- do, raises and leaves the store as it is, for every event other than ORDER_STATUS_VIEWED.
  pub emit-closed :
      (a : EventArgs) (s : Store)
      → (a.event == "ORDER_STATUS_VIEWED") ≡ false
      → IsClosed a.order_id s
      → (x : Error) × (emit config world a s ≡ (err x, s))
  unfolding emit build_result_event ◌>>=◌
  emit-closed a s seen closed = go (built_event config world a s.now) refl
    where
      go :
          (r : Result Error ModuleResultEvent)
          → built_event config world a s.now ≡ r
          → (x : Error) × (emit config world a s ≡ (err x, s))
      go (err x) h = (x, rw h refl)
      go (ok e) h =
          let (name, own) = built_event-names a s.now h in
          let (x, r) = record-closed e a.order_id s own (rw name seen) closed in (x, rw h r)
