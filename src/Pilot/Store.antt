-- ===== src/Pilot/Store.antt =====
-- `PilotStore` of runtime.py: the tables, and code that reads and writes them and may raise.
pub mod Orders
pub mod Events
pub mod Outbox
pub mod Keeps
pub mod Yields
pub mod Adds
use p4p.Prelude.{ℕ, String, List}
use p4p.Prelude.Dict.{Dict, get_or, insert}
use p4p.Prelude.Result.{Result, ok, err}
use p4p.Core.Event.{ModuleResultEvent}
use p4p.Core.Flow.Validate.{FlowError}
use p4p.Pilot.Order.{OrderRow, MenuRow}

-- The `status` column of `order_action_outbox`.
pub data ActionStatus : Type 0 where
  pending running succeeded failed unknown : ActionStatus

-- One constructor for each kind of exception that the modelled code raises.
pub data Error : Type 0 where
  flow : FlowError → Error
  http : ℕ → Error
  admission : String → Error
  unknown_runtime_module : String → Error
  undeclared_input undeclared_output undeclared_failure : String → Error
  reserved_metadata blank_trigger trigger_mismatch : Error
  invalid_event : Error
  identity_conflict key_error : String → Error
  integrity_error value_error : Error

pub data LastError : Type 0 where
  no_error : LastError
  note : String → LastError
  raised : Error → LastError

pub record OrderAction : Type 0 where
  pub action_id : String
  pub order_id : String
  pub lane : String
  pub status : ActionStatus
  pub attempts : ℕ
  pub last_error : LastError
  pub created_at : ℕ
  pub updated_at : ℕ

-- The tables in the order of their rowids, and the time that `utc_now` gives.
pub record Store : Type 0 where
  pub state : Dict String
  pub menu_items : List MenuRow
  pub orders : List OrderRow
  pub order_events : List ModuleResultEvent
  pub order_event_receipts : List (String × String)
  pub outbox : List OrderAction
  pub now : ℕ

abbrev pub Exec : Type 0 → Type 0
Exec A = Store → Result Error A × Store

abbrev pub pure : {A : Type 0} → A → Exec A
pure a s = (ok a, s)

abbrev pub raise : {A : Type 0} → Error → Exec A
raise e s = (err e, s)

abbrev pub lift : {A : Type 0} → Result Error A → Exec A
lift r s = (r, s)

abbrev pub gets : {A : Type 0} → (Store → A) → Exec A
gets f s = (ok (f s), s)

abbrev pub continue : {A B : Type 0} → Result Error A → (A → Exec B) → Exec B
continue (ok a) f s = f a s
continue (err e) f s = (err e, s)

infixl 5 ◌>>=◌ ◌>>◌
unfoldable pub ◌>>=◌ : {A B : Type 0} → Exec A → (A → Exec B) → Exec B
◌>>=◌ m f s = continue (m s).0 f (m s).1

abbrev pub ◌>>◌ : {A B : Type 0} → Exec A → Exec B → Exec B
m >> n = m >>= λ _. n

unfoldable pub get_state : String → String → Exec String
get_state key default = gets (λ s. get_or key s.state default)

unfoldable pub set_state : String → String → Exec (Unit {0})
set_state key value s = (ok tt, record s { state = insert key value s.state })
