-- ===== src/Pilot/Process/Status.antt =====
-- What a restart makes of an action, and what a succeeded action makes of its lane.
use p4p.Prelude.{String, ◌≡◌, refl, arith, Option, some, List, [], ◌∷◌, map, ℕ}
use p4p.Pilot.Store.{Store, ActionStatus, running, unknown, OrderAction}
use p4p.Pilot.Store.Outbox.{find_action, interrupted, restart}
use p4p.Pilot.Process.Durable.{status_of, row_status}

-- What is left of a status after the node starts again.
abbrev pub after_restart : Option ActionStatus → Option ActionStatus
after_restart (some running) = some unknown
after_restart other = other

interrupted-status :
    (id : String) (now : ℕ) (xs : List OrderAction)
    → row_status (find_action id (map (interrupted now) xs))
      ≡ after_restart (row_status (find_action id xs))
interrupted-status id now [] = refl
interrupted-status id now (a ∷ xs) = ground (arith, interrupted-status id now xs)

-- A restart turns an action that was running into an unknown one, and leaves every other status.
pub restart-status :
    (id : String) (s : Store) → status_of id (restart s) ≡ after_restart (status_of id s)
unfolding restart
restart-status id s = interrupted-status id s.now s.outbox
