-- ===== src/Pilot/Lanes/Reply.antt =====
-- What the node reads from the reply of a payment service.
use p4p.Prelude.{
  String, ◌==◌, strip, true, false, Bool, not, ◌&&◌, ◌||◌, none, some, Option, [], ◌∷◌, ◌++◌,
  member, if◌then◌else◌, lower,
}
use p4p.Prelude.Dict.{Dict, lookup, get_or}
use p4p.Core.Event.{Value, null, text}
use p4p.Core.Manifest.{ModuleManifest}
use p4p.Core.Flow.Contract.{is_payment_flow_module}
use p4p.Core.Flow.Base.{payment_result_events}
use p4p.Prelude.Result.{Result, ok, err}
use p4p.Pilot.Store.{Error, value_error}
use p4p.Pilot.Config.{
  World, UrlParts, PaymentPayload, PostResult, request_failed, not_an_object, replied,
}
use p4p.Pilot.Record.{EventArgs, result_phase}

abbrev pub text_or_empty : Option String → String
text_or_empty none = ""
text_or_empty (some t) = t

abbrev pub payment_manifest_of : Option ModuleManifest → Option ModuleManifest
payment_manifest_of none = none
payment_manifest_of (some m) =
    if strip (text_or_empty m.raw_entrypoint) == ""
    then none
    else if is_payment_flow_module m
    then some m
    else none

abbrev parts_error : Option UrlParts → Result Error (Option String)
parts_error none = err value_error
parts_error (some parts) = ok (
    if not (member parts.scheme ("http" ∷ "https" ∷ [])) || parts.netloc == ""
    then some "PAYMENT_EXTERNAL_URL_INVALID"
    else if parts.scheme == "http"
        && not (member parts.hostname ("127.0.0.1" ∷ "localhost" ∷ "::1" ∷ []))
    then some "PAYMENT_EXTERNAL_HTTP_NOT_LOOPBACK"
    else none)

-- The reason that speaks against the URL; `urlsplit` may raise.
unfoldable pub external_payment_url_error : World → String → Result Error (Option String)
external_payment_url_error world url =
    if url == "" then ok (some "PAYMENT_EXTERNAL_URL_MISSING") else parts_error (world.urlsplit url)

-- `_payment_event_payload`
unfoldable pub payment_event_payload : PaymentPayload → Dict String
payment_event_payload payload = elim payload.event [
  | some event ↦ event
  | none ↦
      if lower (strip (get_or "status" payload.fields "")) == "confirmed"
      then ("event", "PAYMENT_MODE_CHANGED")
        ∷ ("outcome", "SUCCESS")
        ∷ ("side_effect_state", "confirmed")
        ∷ []
      else ("event", "PAYMENT_FAILED")
        ∷ ("outcome", "FAILED_PERMANENT")
        ∷ ("reason_code", "EXTERNAL_PAYMENT_NOT_CONFIRMED")
        ∷ ("side_effect_state", "none")
        ∷ []
]

unfoldable pub safe_payment_outcome : String → String → String
safe_payment_outcome event_name value =
    let outcome = strip value in
    let changed = event_name == "PAYMENT_MODE_CHANGED" in
    if changed
    then "SUCCESS"
    else if member outcome
        ("FAILED_RETRYABLE" ∷ "FAILED_PERMANENT" ∷ "UNAVAILABLE" ∷ "TIMEOUT_UNKNOWN" ∷ [])
    then outcome
    else "FAILED_PERMANENT"

unfoldable pub safe_side_effect_state : String → String → String
safe_side_effect_state value default =
    if member (strip value) ("none" ∷ "confirmed" ∷ "unknown" ∷ []) then strip value else default

-- The event that the payment module's reply names; any other name is a failure.
unfoldable pub payment_event_name : Dict String → String
payment_event_name event =
    let name = strip (get_or "event" event "") in
    if member name payment_result_events then name else "PAYMENT_FAILED"

-- A reply's reason, as it came, unless it is missing or blank.
unfoldable pub payment_reason_code : Dict String → String
payment_reason_code event =
    let reason = get_or "reason_code" event "" in
    if strip reason == "" then "EXTERNAL_PAYMENT_FAILED" else reason

-- What the two calls come to: the confirmed payload, or the reason, the outcome, the retry flag and
-- the added metadata of the failure that is recorded; or what was raised before them.
pub data Exchange : Type 0 where
  confirmed_as : PaymentPayload → Exchange
  refused : String → String → Bool → Dict Value → Exchange
  crashed : Error → Exchange

abbrev pub after_confirm : PostResult → Exchange
after_confirm request_failed =
    refused "PAYMENT_EXTERNAL_REQUEST_FAILED" "UNAVAILABLE" true (("error", null) ∷ [])
after_confirm not_an_object =
    refused "PAYMENT_EXTERNAL_RESPONSE_INVALID" "FAILED_PERMANENT" false []
after_confirm (replied payload) = confirmed_as payload

abbrev optional_text : Option String → Value
optional_text none = null
optional_text (some t) = text t

unfoldable pub safe_event : PaymentPayload → String
unfolding payment_event_payload payment_event_name
safe_event payload = payment_event_name (payment_event_payload payload)

unfoldable pub safe_outcome : PaymentPayload → String
unfolding payment_event_payload payment_event_name safe_payment_outcome
safe_outcome payload =
    safe_payment_outcome (safe_event payload) (get_or "outcome" (payment_event_payload payload) "")

unfoldable pub changed : PaymentPayload → Bool
unfolding payment_event_payload payment_event_name
changed payload = safe_event payload == "PAYMENT_MODE_CHANGED"

abbrev pub result_metadata : PaymentPayload → Dict Value → Dict Value
result_metadata payload metadata =
    metadata
    ++ ("external_payment_id", optional_text (lookup "payment_id" payload.fields))
      ∷ ("external_payment_status", optional_text (lookup "status" payload.fields))
      ∷ []

abbrev pub result_args : String → String → String → String → PaymentPayload → Dict Value → EventArgs
unfolding payment_event_payload payment_event_name safe_payment_outcome safe_side_effect_state
    payment_reason_code
result_args module_id order_id action_id key payload metadata = record {
  event = safe_event payload;
  source_module = module_id;
  order_id = order_id;
  action_id = action_id;
  idempotency_key = key;
  outcome = safe_outcome payload;
  severity = if changed payload then "low" else "high";
  retryable =
      member (safe_outcome payload) ("FAILED_RETRYABLE" ∷ "UNAVAILABLE" ∷ "TIMEOUT_UNKNOWN" ∷ []);
  side_effect_state =
      safe_side_effect_state (get_or "side_effect_state" (payment_event_payload payload) "")
        (if changed payload then "confirmed" else "none");
  reason_code =
      if safe_event payload == "PAYMENT_FAILED"
      then some (payment_reason_code (payment_event_payload payload))
      else none;
  metadata = result_metadata payload metadata;
  phase = result_phase;
  trigger = some "PAYMENT_REQUIRED";
}
