-- ===== src/Pilot/Store/Outbox.antt =====
-- The table `order_action_outbox`: one row for each action that must not be done twice.
pub mod Held
pub mod Exclusion
use p4p.Prelude.{
  ℕ, ◌+◌, String, ◌==◌, Bool, true, false, not, ◌||◌, Option, none, some, List, [], ◌∷◌, ◌++◌, map,
  select, if◌then◌else◌,
}
use p4p.Prelude.Result.{Result, ok, err}
use p4p.Pilot.Store.{
  Store, Exec, Error, identity_conflict, key_error, value_error, ActionStatus, pending, running,
  failed, unknown, LastError, no_error, note, raised, OrderAction, ◌>>=◌,
}

-- SELECT * FROM order_action_outbox WHERE action_id = ?
abbrev pub find_action : String → List OrderAction → Option OrderAction
find_action action_id [] = none
find_action action_id (a ∷ rest) =
    if a.action_id == action_id then some a else find_action action_id rest

-- UPDATE order_action_outbox SET … WHERE action_id = ?
abbrev pub update_action :
    String → (OrderAction → OrderAction) → List OrderAction → List OrderAction
update_action action_id f [] = []
update_action action_id f (a ∷ rest) =
    if a.action_id == action_id then f a ∷ rest else a ∷ update_action action_id f rest

abbrev pub fresh_action : String → String → String → ℕ → OrderAction
fresh_action order_id action_id lane now = record {
  action_id = action_id;
  order_id = order_id;
  lane = lane;
  status = pending;
  attempts = 0;
  last_error = no_error;
  created_at = now;
  updated_at = now;
}

-- The row that `INSERT OR IGNORE` finds must belong to the same order and lane.
abbrev pub checked_action : String → String → OrderAction → Result Error OrderAction
checked_action order_id lane a =
    if not (a.order_id == order_id) || not (a.lane == lane)
    then err (identity_conflict a.action_id)
    else ok a

unfoldable pub ensure_order_action : String → String → String → Exec OrderAction
ensure_order_action order_id action_id lane s = elim (find_action action_id s.outbox) [
  | some a ↦ (checked_action order_id lane a, s)
  | none ↦
      let a = fresh_action order_id action_id lane s.now in
      (ok a, record s { outbox = s.outbox ++ a ∷ [] })
]

abbrev pub claimable : ActionStatus → Bool
claimable pending = true
claimable failed = true
claimable _ = false

abbrev pub claim : ℕ → OrderAction → OrderAction
claim now a = record a {
  status = running;
  attempts = a.attempts + 1;
  last_error = no_error;
  updated_at = now;
}

-- The result is the row after the update, with the flag `claimed`.
abbrev pub claim_row : String → OrderAction → Store → Result Error (OrderAction × Bool) × Store
claim_row action_id a s =
    if claimable a.status
    then (
      ok (claim s.now a, true),
      record s { outbox = update_action action_id (claim s.now) s.outbox },
    )
    else (ok (a, false), s)

unfoldable pub claim_order_action : String → String → String → Exec (OrderAction × Bool)
unfolding ensure_order_action
claim_order_action order_id action_id lane = do
  a ← ensure_order_action order_id action_id lane
  claim_row action_id a

abbrev pub finish : ActionStatus → LastError → ℕ → OrderAction → OrderAction
finish status last_error now a = record a {
  status = status;
  last_error = last_error;
  updated_at = now;
}

-- status not in {"succeeded", "failed", "unknown"}, negated
abbrev pub is_final : ActionStatus → Bool
is_final pending = false
is_final running = false
is_final _ = true

-- The text of the error is not cut.
unfoldable pub finish_order_action : String → ActionStatus → LastError → Exec OrderAction
finish_order_action action_id status last_error s =
    if not (is_final status) then (err value_error, s) else elim (find_action action_id s.outbox) [
      | none ↦ (err (key_error action_id), s)
      | some a ↦ (
        ok (finish status last_error s.now a),
        record s { outbox = update_action action_id (finish status last_error s.now) s.outbox },
      )
    ]

-- The rows of the order; the program reads them by their ids.
unfoldable pub order_actions : String → Store → List OrderAction
order_actions order_id s = select (λ (a : OrderAction). a.order_id == order_id) s.outbox

abbrev pub interrupted : ℕ → OrderAction → OrderAction
interrupted now a = elim a.status [
  | running ↦ record a {
    status = unknown;
    last_error = elim a.last_error [
      | no_error ↦ note "runtime_restarted_before_completion"
      | note t ↦ note t
      | raised e ↦ raised e
    ];
    updated_at = now;
  }
  | _ ↦ a
]

-- What `_initialize` does to the outbox when the node starts again.
unfoldable pub restart : Store → Store
restart s = record s { outbox = map (interrupted s.now) s.outbox }
