-- ===== src/Core/Event.antt =====
-- `ModuleResultEvent` of p4p_core/models.py, with the checks that its construction makes.
use Prim.Native.Char.{code}
use Prim.Native.String.{[] as nil, ◌∷◌ as cons}
use p4p.Prelude.{
  not, ◌==◌, ℕ, String, Bool, true, false, ◌&&◌, ◌||◌, Option, none, some, List, [], ◌∷◌, member,
  leb, nat_eq, if◌then◌else◌,
}
use p4p.Prelude.Dict.{Dict}

-- A JSON value that the program puts into an event's metadata.
pub data Value : Type 0 where
  null : Value
  text : String → Value
  num : ℕ → Value
  flag : Bool → Value
  texts : List String → Value

pub record ModuleResultEvent : Type 0 where
  pub event : String
  pub source_module : String
  pub order_id : Option String
  pub action_id : String
  pub idempotency_key : Option String
  pub outcome : String
  pub reason_code : Option String
  pub severity : String
  pub retryable : Bool
  pub side_effect_state : String
  pub timestamp : ℕ
  pub metadata : Option (Dict Value)

is_upper : ℕ → Bool
is_upper c = leb b'A' c && leb c b'Z'

is_lower_or_digit : ℕ → Bool
is_lower_or_digit c = (leb b'a' c && leb c b'z') || (leb b'0' c && leb c b'9')

-- [A-Z0-9_]
is_token_char : ℕ → Bool
unfolding is_upper
is_token_char c = is_upper c || (leb b'0' c && leb c b'9') || nat_eq c b'_'

all_token_chars : String → Bool
all_token_chars nil = true
all_token_chars (cons c s) = is_token_char (code c) && all_token_chars s

-- ^[A-Z][A-Z0-9_]*$
unfoldable pub is_event_name : String → Bool
unfolding is_upper is_token_char all_token_chars
is_event_name nil = false
is_event_name (cons c s) = is_upper (code c) && all_token_chars s

-- ^[A-Z0-9_]+$
unfoldable pub is_reason_code : String → Bool
unfolding is_token_char all_token_chars
is_reason_code nil = false
is_reason_code (cons c s) = is_token_char (code c) && all_token_chars s

-- Where the pattern ^[a-z0-9]+(?:\.[a-z0-9-]+)+$ stands: before or in its first part, before or in
-- a later one.
pub data Place : Type 0 where
  at_start in_first at_later in_later : Place

is_module_id_from : Place → String → Bool
is_module_id_from in_later nil = true
is_module_id_from _ nil = false
is_module_id_from at_start (cons c s) = is_lower_or_digit (code c) && is_module_id_from in_first s
is_module_id_from in_first (cons c s) =
    let dot = is_module_id_from at_later s in
    let more = is_module_id_from in_first s in
    if nat_eq (code c) b'.' then dot else is_lower_or_digit (code c) && more
is_module_id_from at_later (cons c s) =
    (is_lower_or_digit (code c) || nat_eq (code c) b'-') && is_module_id_from in_later s
is_module_id_from in_later (cons c s) =
    let dot = is_module_id_from at_later s in
    let more = is_module_id_from in_later s in
    if nat_eq (code c) b'.'
    then dot
    else (is_lower_or_digit (code c) || nat_eq (code c) b'-') && more

unfoldable pub is_module_id : String → Bool
unfolding is_module_id_from is_lower_or_digit
is_module_id s = is_module_id_from at_start s

unfoldable pub is_outcome : String → Bool
is_outcome s = member s (
    "SUCCESS" ∷ "FAILED_RETRYABLE" ∷ "FAILED_PERMANENT" ∷ "TIMEOUT_UNKNOWN" ∷ "UNAVAILABLE"
    ∷ "NEEDS_INPUT" ∷ "NEEDS_HUMAN" ∷ [])

abbrev reason_ok : Option String → Bool
reason_ok none = true
reason_ok (some r) = is_reason_code r

-- What the fields of an event must satisfy; a `ValidationError` otherwise.
unfoldable pub event_is_valid : ModuleResultEvent → Bool
unfolding is_event_name is_reason_code is_module_id is_outcome
event_is_valid e =
    is_event_name e.event
    && is_module_id e.source_module
    && not (e.action_id == "")
    && is_outcome e.outcome
    && reason_ok e.reason_code
    && member e.severity ("low" ∷ "medium" ∷ "high" ∷ "critical" ∷ [])
    && member e.side_effect_state ("none" ∷ "confirmed" ∷ "unknown" ∷ [])
