-- ===== src/Pilot/Print/Adapter.antt =====
-- print_adapters.py: what a configured mode means on a printer and on a screen.
use p4p.Prelude.{
  String, ◌==◌, strip, lower, Bool, true, false, Option, none, some, [], ◌∷◌, member, if◌then◌else◌,
}
use p4p.Prelude.Dict.{Dict}
use p4p.Core.Event.{Value, text}

pub record PrintAdapterDecision : Type 0 where
  pub event : String
  pub outcome : String
  pub severity : String
  pub retryable : Bool
  pub side_effect_state : String
  pub reason_code : Option String
  pub metadata : Dict Value

-- The two subclasses of `PrintAdapter`.
pub data PrintAdapter : Type 0 where
  printer screen : PrintAdapter

abbrev pub target_id : PrintAdapter → String
target_id printer = "printer"
target_id screen = "screen"

abbrev pub confirmed_status_message : PrintAdapter → String
confirmed_status_message printer = "Order accepted. Print confirmed."
confirmed_status_message screen = "Order accepted. Operator screen confirmed."

abbrev pub needs_human_status_message : PrintAdapter → String
needs_human_status_message printer =
    "Order accepted. Printer issue detected. Human attention required."
needs_human_status_message screen =
    "Order accepted. Screen surface issue detected. Human attention required."

abbrev pub alerted_status_message : PrintAdapter → String
alerted_status_message printer =
    "Order accepted. Printer issue detected. Operator alerted by email. Human attention required."
alerted_status_message screen =
    "Order accepted. Screen surface issue detected. Operator alerted by email. Human attention required."

abbrev pub alert_failed_status_message : PrintAdapter → String
alert_failed_status_message printer =
    "Order accepted. Printer issue detected. Email alert failed. Human attention required."
alert_failed_status_message screen =
    "Order accepted. Screen surface issue detected. Email alert failed. Human attention required."

-- A decision with no metadata: event, outcome, reason, retryable, side effect; severity is high.
abbrev problem : String → String → String → Bool → String → PrintAdapterDecision
problem event outcome reason retryable side_effect = record {
  event = event;
  outcome = outcome;
  severity = "high";
  retryable = retryable;
  side_effect_state = side_effect;
  reason_code = some reason;
  metadata = [];
}

abbrev confirmed : Dict Value → PrintAdapterDecision
confirmed metadata = record {
  event = "PRINT_SUCCESS_CONFIRMED";
  outcome = "SUCCESS";
  severity = "low";
  retryable = false;
  side_effect_state = "confirmed";
  reason_code = none;
  metadata = metadata;
}

unfoldable pub decide : PrintAdapter → String → PrintAdapterDecision
decide printer mode =
    if mode == "printer_offline"
    then problem "PRINTER_OFFLINE" "UNAVAILABLE" "PRINTER_OFFLINE" true "none"
    else if mode == "paper_out"
    then problem "PAPER_OUT" "FAILED_PERMANENT" "PAPER_OUT" false "none"
    else if mode == "timeout"
    then problem "PRINT_TIMEOUT" "TIMEOUT_UNKNOWN" "USB_TIMEOUT" true "unknown"
    else if mode == "uncertain"
    then problem "PRINT_UNCERTAIN" "TIMEOUT_UNKNOWN" "PRINT_STATE_UNCERTAIN" false "unknown"
    else if mode == "precheck_failed"
    then problem "PRINT_FAILED_PRECHECK" "FAILED_PERMANENT" "PRECHECK_FAILED" false "none"
    else confirmed []
decide screen mode =
    if member mode ("screen_offline" ∷ "printer_offline" ∷ "unavailable" ∷ [])
    then problem "PRINT_FAILED_PRECHECK" "UNAVAILABLE" "SCREEN_UNAVAILABLE" true "none"
    else if mode == "timeout"
    then problem "PRINT_TIMEOUT" "TIMEOUT_UNKNOWN" "SCREEN_TIMEOUT" true "unknown"
    else if mode == "uncertain"
    then problem "PRINT_UNCERTAIN" "TIMEOUT_UNKNOWN" "SCREEN_STATE_UNCERTAIN" false "unknown"
    else confirmed (("delivery_surface", text "screen") ∷ [])

unfoldable pub build_print_adapter : String → PrintAdapter
build_print_adapter target = if lower (strip target) == "screen" then screen else printer
