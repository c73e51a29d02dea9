-- ===== src/Pilot/Config.antt =====
-- The part of `PilotConfig` (config.py) that the order flow reads, and what is outside the program.
use p4p.Prelude.{ℕ, String, Bool, Option, List}
use p4p.Prelude.Dict.{Dict}
use p4p.Core.Manifest.{ModuleManifest}
use p4p.Pilot.Order.{OrderRequest}

pub record Config : Type 0 where
  pub node_id : String
  pub node_order_mode_default : String
  pub node_open_default : Bool
  pub manual_order_acceptance_required : Bool
  pub persistent_database : Bool
  pub persistent_node_identity : Bool
  pub strong_operator_token : Bool
  -- `resolved_modules.manifests`
  pub manifests : List ModuleManifest
  pub payment_module_id : String
  pub hardware_profile : String
  pub hardware_profile_customized : Bool
  pub stock_unavailable_item_ids : List String
  pub stock_module_mode : String
  pub payment_cash_mode : String
  pub godpay_force_roll : Option ℕ
  pub godpay_success_threshold : ℕ
  pub payment_external_url : String
  pub payment_external_merchant_id : String
  pub payment_external_currency : String
  pub payment_external_customer_user_id : String
  pub payment_external_auto_confirm : Bool
  pub print_module_mode : String
  pub print_module_target : String
  pub print_module_driver : String
  pub print_spool_dir : String
  pub print_device_path : String
  pub print_escpos_cut_mode : String
  pub print_sensor_source : String
  pub print_sensor_status_path : String
  pub print_sensor_serial_path : String
  pub print_sensor_precheck : String
  pub print_sensor_postcheck : String
  pub notify_email_mode : String
  pub menu_currency : String
  pub order_max_lines : ℕ
  pub order_max_units : ℕ
  pub order_max_value_minor : ℕ
  pub order_max_active : ℕ
  pub order_max_pending : ℕ
  pub order_max_pending_per_contact : ℕ

-- A payment service's JSON object: the fields that the node reads, each a text or missing, and the
-- object under "event", if there is one.
pub record PaymentPayload : Type 0 where
  pub fields : Dict String
  pub event : Option (Dict String)

-- What a POST comes to: `httpx.HTTPError` or `ValueError`, a JSON value that is no object, or one.
pub data PostResult : Type 0 where
  request_failed : PostResult
  not_an_object : PostResult
  replied : PaymentPayload → PostResult

-- `urllib.parse.urlsplit`: scheme, netloc and hostname, or `none` for a ValueError.
pub record UrlParts : Type 0 where
  pub scheme : String
  pub netloc : String
  pub hostname : String

-- What the program calls and does not implement.
pub record World : Type 0 where
  -- `load_reference_module_catalog()`
  pub reference_catalog : Dict ModuleManifest
  -- SHA-256 of the request's canonical JSON, its client_request_id left out
  pub order_request_fingerprint : OrderRequest → String
  -- the roll for an order id, from SHA-256 of the seed or from `secrets`
  pub godpay_draw : String → ℕ
  -- `datetime.isoformat`
  pub isoformat : ℕ → String
  pub urlsplit : String → Option UrlParts
  -- `client.post(url, …)`, `raise_for_status` and `json`: the create call, by URL, and the confirm
  -- call to `{url.rstrip('/')}/{payment_id}/confirm`, by that URL and that id
  pub post_create : String → PostResult
  pub post_confirm : String → String → PostResult
  -- the JSON object in the sensor's status file; `none` where it cannot be read or parsed
  pub status_file : Option (Dict String)
  -- the lines of the sensor's serial device; `none` where it cannot be read
  pub serial_lines : Option (List String)
  -- `str(Path(spool_dir) / f"{order_id}.txt")` and `str(Path(device_path))`
  pub ticket_path : String → String → String
  pub path_text : String → String
  -- the write of the ticket file, by order id: `none` on `OSError`, else whether one was there
  pub spool_write : String → Option Bool
  -- the write to the device, by order id: `none` on `OSError`, else the bytes written
  pub device_write : String → Option ℕ
