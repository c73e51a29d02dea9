-- ===== src/Pilot/Process/Durable.antt =====
-- What a row of the outbox does to its lane: when the lane runs, and how its end is recorded.
use p4p.Prelude.{
  String, ◌==◌, eq_iff, ◌≡◌, refl, ◌∙◌, arith, Bool, true, false, Option, none, some, List, [], ◌∷◌,
  Option-cases, Bool-cases, ap, any, concat, inl, inr, not, ◌||◌,
}
use p4p.Prelude.Result.{Result, ok, err}
use p4p.Pilot.Order.{StoredOrder}
use p4p.Pilot.Store.{
  Store, Exec, Error, ActionStatus, succeeded, failed, unknown, running, pending, OrderAction,
  ◌>>=◌, continue, LastError, no_error, raised, note, LastError, no_error, raised,
}
use p4p.Pilot.Store.Keeps.{Keeps}
use p4p.Pilot.Store.Events.{listed_events, list_order_events}
use p4p.Pilot.Store.Outbox.{
  find_action, update_action, claim, claimable, finish, ensure_order_action, claim_order_action,
  finish_order_action, checked_action, is_final,
}
use p4p.Pilot.Store.Outbox.Held.{held}
use p4p.Pilot.Process.{
  Lane, execute_durable_lane, settle, claim_and_run, by_status, unfinished,
  action_has_unknown_side_effect, unknown_side_effect,
}

-- The row of the action is in the table, and it is this order's and this lane's.
abbrev pub IsRow : StoredOrder → String → OrderAction → Type 0
IsRow order lane a = (a.order_id ≡ order.order_id) × (a.lane ≡ lane)

-- The row that a call to ensure the action gives, with no change of the store.
ensure-found :
    (order_id id lane : String) (s : Store) {a : OrderAction}
    → find_action id s.outbox ≡ some a
    → ensure_order_action order_id id lane s ≡ (checked_action order_id lane a, s)
unfolding ensure_order_action
ensure-found order_id id lane s e = rw (e, ensure_order_action) refl

checked_action-row :
    (order : StoredOrder) (lane : String) (a : OrderAction)
    → IsRow order lane a
    → checked_action order.order_id lane a ≡ ok a
checked_action-row order lane a (h, k) =
    ground (arith, eq_iff a.order_id order.order_id, eq_iff a.lane lane)

by_status-held :
    (status : ActionStatus) (lane id : String) (f g : Lane)
    → claimable status ≡ false
    → by_status status lane id f ≡ by_status status lane id g
by_status-held succeeded lane id f g h = refl
by_status-held running lane id f g h = refl
by_status-held unknown lane id f g h = refl
by_status-held pending lane id f g h = absurd (ground arith)
by_status-held failed lane id f g h = absurd (ground arith)

continue-checked :
    {A : Type 0} (order_id lane : String) (a : OrderAction) (s : Store) (f g : OrderAction → Exec A)
    → f a ≡ g a
    → continue (checked_action order_id lane a) f s ≡ continue (checked_action order_id lane a) g s
continue-checked order_id lane a s f g e =
    elim (Bool-cases (not (a.order_id == order_id) || not (a.lane == lane))) [
      | inl b ↦ rw b refl
      | inr b ↦ rw b (rw e refl)
    ]

held-row :
    (id : String) (xs : List OrderAction)
    → held id xs ≡ true
    → (a : OrderAction) × ((find_action id xs ≡ some a) × (claimable a.status ≡ false))
held-row id xs h = elim (Option-cases (find_action id xs)) [
  | inl e ↦ absurd (ground arith)
  | inr (a, e) ↦ (a, (e, ground arith))
]

-- A lane whose action is running, unknown or succeeded is not run: the result is the same,
-- whatever the lane is.
pub execute_durable_lane-held :
    (lane id : String) (f g : Lane) (order : StoredOrder) (s : Store)
    → held id s.outbox ≡ true
    → execute_durable_lane lane id f order s ≡ execute_durable_lane lane id g order s
unfolding execute_durable_lane ◌>>=◌
execute_durable_lane-held lane id f g order s h =
    let (a, (e, c)) = held-row id s.outbox h in
    rw (ensure-found order.order_id id lane s e) (
      continue-checked order.order_id lane a s (λ b. by_status b.status lane id f order)
        (λ b. by_status b.status lane id g order)
        (ap (λ (l : Lane). l order) (by_status-held a.status lane id f g c)))

update_action-found :
    (id : String) (f : OrderAction → OrderAction) (xs : List OrderAction) {a : OrderAction}
    → find_action id xs ≡ some a
    → (f a).action_id ≡ a.action_id
    → find_action id (update_action id f xs) ≡ some (f a)
update_action-found id f [] e k = absurd (ground arith)
update_action-found id f (x ∷ xs) {a} e k = ground (arith, update_action-found id f xs {a = a})

-- The store in which a claimed lane runs.
abbrev pub claimed_store : String → Store → Store
claimed_store id s = record s { outbox = update_action id (claim s.now) s.outbox }

claim-found :
    (order : StoredOrder) (lane id : String) (s : Store) {a : OrderAction}
    → find_action id s.outbox ≡ some a
    → IsRow order lane a
    → claimable a.status ≡ true
    → claim_order_action order.order_id id lane s ≡ (ok (claim s.now a, true), claimed_store id s)
unfolding claim_order_action ◌>>=◌
claim-found order lane id s {a} e row c =
    rw (ensure-found order.order_id id lane s e)
      (rw (checked_action-row order lane a row) (rw c refl))

by_status-claims :
    (status : ActionStatus) (lane id : String) (f : Lane)
    → claimable status ≡ true
    → by_status status lane id f ≡ claim_and_run lane id f
by_status-claims pending lane id f h = refl
by_status-claims failed lane id f h = refl
by_status-claims running lane id f h = absurd (ground arith)
by_status-claims succeeded lane id f h = absurd (ground arith)
by_status-claims unknown lane id f h = absurd (ground arith)

claim_and_run-found :
    (lane id : String) (f : Lane) (order : StoredOrder) (s : Store) {a : OrderAction}
    → find_action id s.outbox ≡ some a
    → IsRow order lane a
    → claimable a.status ≡ true
    → claim_and_run lane id f order s
      ≡ settle lane id order (f order (claimed_store id s)).0 (f order (claimed_store id s)).1
unfolding claim_and_run ◌>>=◌
claim_and_run-found lane id f order s e row c = rw (claim-found order lane id s e row c) refl

-- An action that is pending or failed is claimed, and its lane runs once, on the store in which the
-- action is running with one more attempt; `settle` records how the lane ends.
pub execute_durable_lane-runs :
    (lane id : String) (f : Lane) (order : StoredOrder) (s : Store) {a : OrderAction}
    → find_action id s.outbox ≡ some a
    → IsRow order lane a
    → claimable a.status ≡ true
    → execute_durable_lane lane id f order s
      ≡ settle lane id order (f order (claimed_store id s)).0 (f order (claimed_store id s)).1
unfolding execute_durable_lane ◌>>=◌
execute_durable_lane-runs lane id f order s {a} e row c =
    rw (ensure-found order.order_id id lane s e) (
      rw (checked_action-row order lane a row) (
        rw (by_status-claims a.status lane id f c) (claim_and_run-found lane id f order s e row c)))

-- How a lane ends: the status that is recorded, from its result and from the order's events.
abbrev pub ended : String → StoredOrder → Result Error (StoredOrder × Bool) → Store → ActionStatus
ended lane order (err e) s = unknown
ended lane order (ok (updated, true)) s = succeeded
ended lane order (ok (updated, false)) s = unfinished (
    any (unknown_side_effect (concat ("order:" ∷ order.order_id ∷ ":" ∷ lane ∷ [])))
      (listed_events order.order_id s))

abbrev pub row_status : Option OrderAction → Option ActionStatus
row_status none = none
row_status (some a) = some a.status

-- The status of an action, by its id.
abbrev pub status_of : String → Store → Option ActionStatus
status_of id s = row_status (find_action id s.outbox)

unfinished-is_final : (doubtful : Bool) → is_final (unfinished doubtful) ≡ true
unfinished-is_final true = refl
unfinished-is_final false = refl

finish-found :
    (id : String) (status : ActionStatus) (e : LastError) (s : Store) {a : OrderAction}
    → is_final status ≡ true
    → find_action id s.outbox ≡ some a
    → finish_order_action id status e s ≡ (
      ok (finish status e s.now a),
      record s { outbox = update_action id (finish status e s.now) s.outbox },
    )
unfolding finish_order_action
finish-found id status e s f h = rw (f, h, finish_order_action) refl

finished :
    (id : String) (status : ActionStatus) (e : LastError) (s : Store) {a : OrderAction}
    → find_action id s.outbox ≡ some a
    → status_of id (record s { outbox = update_action id (finish status e s.now) s.outbox })
      ≡ some status
finished id status e s h =
    ap row_status (update_action-found id (finish status e s.now) s.outbox h refl)

-- The end of a lane is recorded: the result is the lane's, and the status is `ended`.
pub settle-ended :
    (lane id : String) (order : StoredOrder) (r : Result Error (StoredOrder × Bool)) (s : Store)
    {a : OrderAction}
    → find_action id s.outbox ≡ some a
    → ((settle lane id order r s).0 ≡ r)
      × (status_of id (settle lane id order r s).1 ≡ some (ended lane order r s))
unfolding settle ◌>>=◌ action_has_unknown_side_effect list_order_events
settle-ended lane id order (err x) s e =
    rw (finish-found id unknown (raised x) s refl e) (refl, finished id unknown (raised x) s e)
settle-ended lane id order (ok (updated, true)) s e =
    rw (finish-found id succeeded no_error s refl e) (refl, finished id succeeded no_error s e)
settle-ended lane id order (ok (updated, false)) s e =
    let doubtful =
      any (unknown_side_effect (concat ("order:" ∷ order.order_id ∷ ":" ∷ lane ∷ [])))
        (listed_events order.order_id s) in
    let status = unfinished doubtful in
    let reason = note (concat (lane ∷ "_lane_did_not_complete" ∷ [])) in
    rw (finish-found id status reason s (unfinished-is_final doubtful) e)
      (refl, finished id status reason s e)

-- The whole of a durable lane: an action that is pending or failed runs its lane once, with one
-- more attempt; the result is the lane's, and the action is recorded as `ended` by it.
pub execute_durable_lane-ended :
    (lane id : String) (f : Lane) (order : StoredOrder) (s : Store) {a : OrderAction}
    → find_action id s.outbox ≡ some a
    → IsRow order lane a
    → claimable a.status ≡ true
    → Keeps (f order)
    → let r = f order (claimed_store id s) in
      ((execute_durable_lane lane id f order s).0 ≡ r.0)
      × (status_of id (execute_durable_lane lane id f order s).1 ≡ some (ended lane order r.0 r.1))
execute_durable_lane-ended lane id f order s e row c keeps =
    rw (execute_durable_lane-runs lane id f order s e row c) (
      settle-ended lane id order (f order (claimed_store id s)).0 (f order (claimed_store id s)).1 (
        ap (find_action id) (keeps (claimed_store id s)).outbox
        ∙ update_action-found id (claim s.now) s.outbox e refl))
