-- ===== src/Pilot/Print/Sensor.antt =====
-- print_sensors.py: the state of the printer before and after a print.
use Prim.Native.Char.{code}
use Prim.Native.String.{[] as nil, ◌∷◌ as cons}
use p4p.Prelude.{
  ℕ, String, ◌==◌, strip, lower, not, ◌&&◌, Option, none, some, List, [], ◌∷◌, member, nat_eq,
  if◌then◌else◌,
}
use p4p.Prelude.Dict.{Dict, get_or}
use p4p.Core.Event.{Value, null, text}
use p4p.Pilot.Config.{Config, World}

pub record PrintSensorObservation : Type 0 where
  pub state : String
  pub metadata : Dict Value

-- The three subclasses of `PrintSensor`.
pub data PrintSensor : Type 0 where
  simulated status_file serial_status : PrintSensor

abbrev pub source_id : PrintSensor → String
source_id simulated = "simulated"
source_id status_file = "status_file"
source_id serial_status = "serial_status"

unfoldable pub build_print_sensor : String → PrintSensor
build_print_sensor source =
    if lower (strip source) == "status_file"
    then status_file
    else if lower (strip source) == "serial_status"
    then serial_status
    else simulated

unfoldable pub normalize_sensor_state : String → String → String
normalize_sensor_state value default =
    if lower (strip value) == "" then default else lower (strip value)

-- `line.split(delimiter, 1)`; `none` where the delimiter is not in the line.
split_once : ℕ → String → Option (String × String)
split_once d nil = none
split_once d (cons c s) =
    if nat_eq (code c) d
    then some (nil, s)
    else elim (split_once d s) [ none ↦ none | some (a, b) ↦ some (cons c a, b) ]

abbrev named_phase : Option (String × String) → Option (String × String)
named_phase none = none
named_phase (some (phase, state)) =
    if member (lower (strip phase)) ("precheck" ∷ "postcheck" ∷ [])
      && not (lower (strip state) == "")
    then some (lower (strip phase), lower (strip state))
    else none

abbrev first_of_two {ℓ} : {A : Type ℓ} → Option A → Option A → Option A
first_of_two none b = b
first_of_two (some a) b = some a

unfoldable pub parse_serial_status_line : String → Option (String × String)
unfolding split_once
parse_serial_status_line line =
    first_of_two (named_phase (split_once b':' line)) (named_phase (split_once b'=' line))

abbrev matching : String → String → Option (String × String) → Option (String × String)
matching phase candidate none = none
matching phase candidate (some (p, state)) = if p == phase then some (state, candidate) else none

-- The last line that names the phase: its state, and the line.
unfoldable pub last_reading : String → List String → Option (String × String)
unfolding parse_serial_status_line
last_reading phase [] = none
last_reading phase (raw ∷ lines) = first_of_two (last_reading phase lines) (
    if strip raw == ""
    then none
    else matching phase (strip raw) (parse_serial_status_line (strip raw)))

abbrev from_reading : String → Option (String × String) → String × Value
from_reading fallback none = (fallback, null)
from_reading fallback (some (state, line)) = (normalize_sensor_state state fallback, text line)

-- `_read_phase`
unfoldable pub read_phase : Option (List String) → String → String → String → String × Value
unfolding last_reading normalize_sensor_state
read_phase lines path phase fallback = if path == "" then (fallback, null) else elim lines [
  | none ↦ (fallback, null)
  | some ls ↦ from_reading fallback (last_reading phase ls)
]

-- `_read_payload`
abbrev read_payload : Option (Dict String) → String → Dict String
read_payload file path = if path == "" then [] else elim file [ none ↦ [] | some d ↦ d ]

module _ (config : Config) (world : World) where
  -- `phase` is precheck or postcheck, `configured` the configured state, `default` what an empty
  -- state stands for.
  unfoldable pub observe : PrintSensor → String → String → String → PrintSensorObservation
  unfolding normalize_sensor_state read_phase
  observe simulated phase configured default = record {
    state = normalize_sensor_state configured default;
    metadata = ("sensor_source", text "simulated") ∷ [];
  }
  observe status_file phase configured default =
      let path = strip config.print_sensor_status_path in
      record {
        state =
            normalize_sensor_state
              (get_or phase (read_payload world.status_file path)
                (normalize_sensor_state configured default))
              default;
        metadata = ("sensor_source", text "status_file") ∷ ("sensor_status_path", text path) ∷ [];
      }
  observe serial_status phase configured default =
      let path = strip config.print_sensor_serial_path in
      let (state, line) =
        read_phase world.serial_lines path phase (normalize_sensor_state configured default) in
      record {
        state = state;
        metadata =
            ("sensor_source", text "serial_status")
            ∷ ("sensor_serial_path", text path)
            ∷ ("sensor_raw_line", line)
            ∷ [];
      }

  unfoldable pub precheck : PrintSensor → PrintSensorObservation
  unfolding observe
  precheck sensor = observe sensor "precheck" config.print_sensor_precheck "ok"

  unfoldable pub postcheck : PrintSensor → PrintSensorObservation
  unfolding observe
  postcheck sensor = observe sensor "postcheck" config.print_sensor_postcheck "confirmed"
