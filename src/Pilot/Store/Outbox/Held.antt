-- ===== src/Pilot/Store/Outbox/Held.antt =====
-- An action that is held: its row is there, and no claim takes it.
use p4p.Prelude.{
  ℕ, String, ◌==◌, eq_iff, ◌≡◌, refl, arith, Bool, true, false, not, ◌&&◌, Option, none, some, List,
  [], ◌∷◌, ◌++◌, map, Option-cases, inl, inr,
}
use p4p.Prelude.Result.{ok}
use p4p.Pilot.Store.{Store, ActionStatus, LastError, OrderAction, ◌>>=◌}
use p4p.Pilot.Store.Outbox.{
  find_action, update_action, ensure_order_action, claimable, claim, claim_order_action, finish,
  fresh_action, finish_order_action, interrupted, restart,
}

abbrev pub not_claimable : Option OrderAction → Bool
not_claimable none = false
not_claimable (some a) = not (claimable a.status)

abbrev pub held : String → List OrderAction → Bool
held id outbox = not_claimable (find_action id outbox)

-- One call on the table, by any worker or by the operator, or a start of the node.
pub data OutboxCall : Type 0 where
  ensures claims : String → String → String → OutboxCall
  finishes : String → ActionStatus → LastError → OutboxCall
  restarts : OutboxCall

abbrev pub after : OutboxCall → Store → Store
unfolding ensure_order_action claim_order_action finish_order_action restart
after (ensures order_id action_id lane) s = (ensure_order_action order_id action_id lane s).1
after (claims order_id action_id lane) s = (claim_order_action order_id action_id lane s).1
after (finishes action_id status e) s = (finish_order_action action_id status e s).1
after restarts s = restart s

abbrev pub after_all : List OutboxCall → Store → Store
unfolding ensure_order_action claim_order_action finish_order_action restart
after_all [] s = s
after_all (c ∷ cs) s = after_all cs (after c s)

-- The call finishes the action as one that a claim takes again.
abbrev pub releases : String → OutboxCall → Bool
releases id (finishes action_id status e) = action_id == id && claimable status
releases id _ = false

abbrev pub none_releases : String → List OutboxCall → Bool
none_releases id [] = true
none_releases id (c ∷ cs) = not (releases id c) && none_releases id cs

held-append :
    (id : String) (xs ys : List OrderAction) → held id xs ≡ true → held id (xs ++ ys) ≡ true
held-append id [] ys h = ground arith
held-append id (x ∷ xs) ys h = ground (arith, held-append id xs ys)

held-claim :
    (id j : String) (now : ℕ) (xs : List OrderAction)
    → held id xs ≡ true
    → held id (update_action j (claim now) xs) ≡ true
held-claim id j now [] h = h
held-claim id j now (x ∷ xs) h = ground (arith, held-claim id j now xs)

held-finish :
    (id j : String) (status : ActionStatus) (e : LastError) (now : ℕ) (xs : List OrderAction)
    → (j == id && claimable status) ≡ false
    → held id xs ≡ true
    → held id (update_action j (finish status e now) xs) ≡ true
held-finish id j status e now [] free h = h
held-finish id j status e now (x ∷ xs) free h = ground (
  arith,
  eq_iff j id,
  eq_iff x.action_id j,
  eq_iff x.action_id id,
  held-finish id j status e now xs,
)

held-interrupted :
    (id : String) (now : ℕ) (xs : List OrderAction)
    → held id xs ≡ true
    → held id (map (interrupted now) xs) ≡ true
held-interrupted id now [] h = h
held-interrupted id now (x ∷ xs) h = ground (arith, held-interrupted id now xs)

held-after :
    (id : String) (c : OutboxCall) (s : Store)
    → releases id c ≡ false
    → held id s.outbox ≡ true
    → held id (after c s).outbox ≡ true
unfolding ◌>>=◌ ensure_order_action claim_order_action finish_order_action restart
held-after id (ensures o a l) s free h =
    ground (arith, held-append id s.outbox (fresh_action o a l s.now ∷ []) h)
held-after id (claims o a l) s free h = ground (
  arith,
  held-append id s.outbox (fresh_action o a l s.now ∷ []) h,
  held-claim id a s.now s.outbox h,
  held-claim id a s.now (s.outbox ++ fresh_action o a l s.now ∷ []),
)
held-after id (finishes a status e) s free h =
    ground (arith, held-finish id a status e s.now s.outbox free h)
held-after id restarts s free h = held-interrupted id s.now s.outbox h

pub held-after_all :
    (id : String) (cs : List OutboxCall) (s : Store)
    → none_releases id cs ≡ true
    → held id s.outbox ≡ true
    → held id (after_all cs s).outbox ≡ true
unfolding after_all
held-after_all id [] s free h = h
held-after_all id (c ∷ cs) s free h =
    ground (arith, held-after_all id cs (after c s), held-after id c s)

-- An action that is held is not claimed, and the attempt leaves the table as it was.
pub claim-held :
    (order_id id lane : String) (s : Store) {a : OrderAction} {claimed : Bool}
    → held id s.outbox ≡ true
    → (claim_order_action order_id id lane s).0 ≡ ok (a, claimed)
    → (claimed ≡ false) × ((claim_order_action order_id id lane s).1 ≡ s)
unfolding ◌>>=◌ claim_order_action ensure_order_action
claim-held order_id id lane s h r = ground arith

held-appended :
    (id : String) (a : OrderAction) (now : ℕ) (xs : List OrderAction)
    → a.action_id ≡ id
    → held id (update_action id (claim now) (xs ++ a ∷ [])) ≡ true
held-appended id a now [] e = ground (arith, eq_iff a.action_id id)
held-appended id a now (x ∷ xs) e = ground (arith, held-appended id a now xs e)

held-found :
    (id : String) (now : ℕ) (xs : List OrderAction) {a : OrderAction}
    → find_action id xs ≡ some a
    → held id (update_action id (claim now) xs) ≡ true
held-found id now [] e = ground arith
held-found id now (x ∷ xs) {a} e = ground (arith, held-found id now xs {a = a})

pub held-claimed :
    (order_id id lane : String) (s : Store) {a : OrderAction}
    → (claim_order_action order_id id lane s).0 ≡ ok (a, true)
    → held id (claim_order_action order_id id lane s).1.outbox ≡ true
unfolding ◌>>=◌ claim_order_action ensure_order_action
held-claimed order_id id lane s r = elim (Option-cases (find_action id s.outbox)) [
  | inl e ↦
      ground (arith, held-appended id (fresh_action order_id id lane s.now) s.now s.outbox refl)
  | inr (b, e) ↦ ground (arith, held-found id s.now s.outbox e)
]
