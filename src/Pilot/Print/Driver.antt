-- ===== src/Pilot/Print/Driver.antt =====
-- print_drivers.py: where a ticket goes, and what the write comes to. The ticket's text is not
-- modelled here.
use p4p.Prelude.{
  ℕ, String, ◌==◌, strip, lower, Bool, true, false, Option, none, some, [], ◌∷◌, ◌++◌, member,
  if◌then◌else◌,
}
use p4p.Prelude.Dict.{Dict}
use p4p.Core.Event.{Value, text, num, flag}
use p4p.Pilot.Order.{StoredOrder}
use p4p.Pilot.Config.{Config, World}

pub record PrintDriverResult : Type 0 where
  pub success : Bool
  pub outcome : String
  pub severity : String
  pub retryable : Bool
  pub side_effect_state : String
  pub reason_code : Option String
  pub metadata : Dict Value

-- The four subclasses of `PrintDriver`.
pub data PrintDriver : Type 0 where
  simulated file_spool device_path escpos_raw : PrintDriver

abbrev pub driver_id : PrintDriver → String
driver_id simulated = "simulated"
driver_id file_spool = "file_spool"
driver_id device_path = "device_path"
driver_id escpos_raw = "escpos_raw"

unfoldable pub build_print_driver : String → PrintDriver
build_print_driver id =
    if lower (strip id) == "file_spool"
    then file_spool
    else if lower (strip id) == "device_path"
    then device_path
    else if lower (strip id) == "escpos_raw"
    then escpos_raw
    else simulated

unfoldable pub normalize_cut_mode : String → String
normalize_cut_mode value =
    if member (lower (strip value)) ("full" ∷ "partial" ∷ "none" ∷ [])
    then lower (strip value)
    else "partial"

abbrev delivered : Dict Value → PrintDriverResult
delivered metadata = record {
  success = true;
  outcome = "SUCCESS";
  severity = "low";
  retryable = false;
  side_effect_state = "confirmed";
  reason_code = none;
  metadata = metadata;
}

abbrev undelivered : String → Bool → String → Dict Value → PrintDriverResult
undelivered outcome retryable reason metadata = record {
  success = false;
  outcome = outcome;
  severity = "high";
  retryable = retryable;
  side_effect_state = "none";
  reason_code = some reason;
  metadata = metadata;
}

abbrev common : PrintDriver → String → Dict Value
common driver target =
    ("print_driver", text (driver_id driver)) ∷ ("delivery_target", text target) ∷ []

abbrev spooled : Dict Value → Option Bool → PrintDriverResult
spooled metadata none = undelivered "FAILED_RETRYABLE" true "SPOOL_WRITE_FAILED" metadata
spooled metadata (some reused) = delivered (metadata ++ ("spool_reused", flag reused) ∷ [])

-- `extra` is what the ESC/POS driver adds: before the bytes are written, and after.
abbrev written : Dict Value → Dict Value → Dict Value → Option ℕ → PrintDriverResult
written metadata cut encoding none =
    undelivered "FAILED_RETRYABLE" true "DEVICE_WRITE_FAILED" (metadata ++ cut)
written metadata cut encoding (some bytes) =
    delivered (metadata ++ ("bytes_written", num bytes) ∷ cut ++ encoding)

module _ (config : Config) (world : World) where
  unfoldable pub deliver : PrintDriver → String → StoredOrder → PrintDriverResult
  unfolding normalize_cut_mode
  deliver simulated target order = delivered (common simulated target)
  deliver file_spool target order =
      let dir = strip config.print_spool_dir in
      if dir == ""
      then undelivered "FAILED_PERMANENT" false "SPOOL_DIR_NOT_CONFIGURED"
          (common file_spool target)
      else spooled
          (common file_spool target
            ++ ("spool_path", text (world.ticket_path dir order.order_id)) ∷ [])
          (world.spool_write order.order_id)
  deliver device_path target order =
      let path = strip config.print_device_path in
      if path == ""
      then undelivered "FAILED_PERMANENT" false "DEVICE_PATH_NOT_CONFIGURED"
          (common device_path target)
      else written (common device_path target ++ ("device_path", text (world.path_text path)) ∷ [])
          [] [] (world.device_write order.order_id)
  deliver escpos_raw target order =
      let path = strip config.print_device_path in
      if path == ""
      then undelivered "FAILED_PERMANENT" false "DEVICE_PATH_NOT_CONFIGURED"
          (common escpos_raw target)
      else written (common escpos_raw target ++ ("device_path", text (world.path_text path)) ∷ [])
          (("cut_mode", text (normalize_cut_mode config.print_escpos_cut_mode)) ∷ [])
          (("encoding", text "ascii_replace") ∷ []) (world.device_write order.order_id)
