-- ===== src/Pilot/Lanes/Common.antt =====
-- What the lanes share: the arguments of an event with the defaults, and the hand-over to a human.
use p4p.Prelude.{ℕ, ◌+◌, ◌*◌, String, concat, Bool, false, Option, none, some, List, [], ◌∷◌}
use p4p.Prelude.Dict.{Dict}
use p4p.Prelude.Result.{Result, ok, err}
use p4p.Core.Event.{Value}
use p4p.Core.Flow.Base.{order_receiver_module_id}
use p4p.Pilot.Order.{accepted, OrderItem, StoredOrder, OrderStatusUpdate, MenuRow}
use p4p.Pilot.Store.{Exec, Error, key_error, pure, ◌>>=◌}
use p4p.Pilot.Store.Orders.{menu_row, update_order_status}
use p4p.Pilot.Record.{EventArgs, result_phase, request_phase}

abbrev pub payment_cash_module_id : String
payment_cash_module_id = "p4p.payment.cash"

abbrev pub godpay_mock_module_id : String
godpay_mock_module_id = "p4p.payment.godpay-mock"

abbrev pub chaospay_mock_module_id : String
chaospay_mock_module_id = "p4p.payment.chaospay-mock"

-- f"order:{order_id}:…", f"payment:{order_id}:…" and the like
unfoldable pub tagged : String → String → String → String
tagged kind order_id rest = concat (kind ∷ ":" ∷ order_id ∷ ":" ∷ rest ∷ [])

-- A request: outcome SUCCESS, severity low, not retryable, no side effect.
abbrev pub requested : String → String → String → String → String → Dict Value → EventArgs
requested event source order_id action_id key metadata = record {
  event = event;
  source_module = source;
  order_id = order_id;
  action_id = action_id;
  idempotency_key = key;
  outcome = "SUCCESS";
  severity = "low";
  retryable = false;
  side_effect_state = "none";
  reason_code = none;
  metadata = metadata;
  phase = request_phase;
  trigger = none;
}

-- A success: outcome SUCCESS, severity low, not retryable, side effect confirmed.
abbrev pub confirmed :
    String → String → String → String → String → Option String → Dict Value → EventArgs
confirmed event source order_id action_id key trigger metadata = record {
  event = event;
  source_module = source;
  order_id = order_id;
  action_id = action_id;
  idempotency_key = key;
  outcome = "SUCCESS";
  severity = "low";
  retryable = false;
  side_effect_state = "confirmed";
  reason_code = none;
  metadata = metadata;
  phase = result_phase;
  trigger = trigger;
}

-- A failure: severity high, no side effect.
abbrev pub failure :
    String
    → String
    → String
    → String
    → String
    → String
    → String
    → Bool
    → Option String
    → Dict Value
    → EventArgs
failure event source order_id action_id key outcome reason retryable trigger metadata = record {
  event = event;
  source_module = source;
  order_id = order_id;
  action_id = action_id;
  idempotency_key = key;
  outcome = outcome;
  severity = "high";
  retryable = retryable;
  side_effect_state = "none";
  reason_code = some reason;
  metadata = metadata;
  phase = result_phase;
  trigger = trigger;
}

-- ORDER_NEEDS_HUMAN, from the order receiver.
abbrev pub needs_human : String → String → String → String → String → Dict Value → EventArgs
needs_human order_id action_id key severity trigger metadata = record {
  event = "ORDER_NEEDS_HUMAN";
  source_module = order_receiver_module_id;
  order_id = order_id;
  action_id = action_id;
  idempotency_key = key;
  outcome = "NEEDS_HUMAN";
  severity = severity;
  retryable = false;
  side_effect_state = "none";
  reason_code = none;
  metadata = metadata;
  phase = result_phase;
  trigger = some trigger;
}

-- OrderStatusUpdate(status="accepted", status_message=message)
abbrev pub accepted_with : String → OrderStatusUpdate
accepted_with message = record {
  status = accepted;
  status_message = some message;
  estimated_ready_minutes = none;
}

-- The price of the items at the menu's prices; a missing item is a `KeyError`.
menu_amount : ℕ → List MenuRow → List OrderItem → Result Error ℕ
menu_amount total menu [] = ok total
menu_amount total menu (i ∷ is) = elim (menu_row i.id menu) [
  | none ↦ err (key_error i.id)
  | some m ↦ menu_amount (total + m.price * i.quantity) menu is
]

unfoldable pub order_amount : StoredOrder → Exec ℕ
unfolding menu_amount
order_amount order s = elim order.pricing_snapshot [
  | some pricing ↦ (ok pricing.total_minor, s)
  | none ↦ (menu_amount 0 s.menu_items order.items, s)
]

-- The order after the update, and whether the next lane may run.
abbrev pub step_to : StoredOrder → String → Bool → Exec (StoredOrder × Bool)
step_to order message next = do
  updated ← update_order_status order.order_id (accepted_with message)
  pure (updated, next)
