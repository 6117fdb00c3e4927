-- ===== src/Cli/Lines.antt =====
-- What src/spinev_ble/__main__.py prints: `_format`, `_print_ocpp`, and the lines of each command. The
-- formats of floats and of dates, and `repr`, are those of Python.
pub mod Spelled
use Prim.Native.Char.{code}
use Prim.Native.String.{String}
use spinev_ble.Base.{ℕ, ◌+◌, Option, none, some, List, [], ◌∷◌, ◌++◌, map, length}
use mathlib.Core.List.{foldl}
use spinev_ble.Base.Int.{ℤ, pos, negsuc}
use spinev_ble.Const.States.{
  ChargerState, available, idle, starting, charging, fault, finishing, evse_suspended, ev_suspended,
  booting, unavailable,
}
use spinev_ble.Models.{Text, Datetime, ChargingSession, ChargerStatus, OcppConfig}
use spinev_ble.Cli.Number.{decimal, hex_six}
use spinev_ble.Cli.Find.{Device, serial}
use spinev_ble.Cli.Ocpp.{ocpp_url}

-- The code points of a literal.
abbrev pub codes : String → Text
codes String.[] = []
codes (String.◌∷◌ c s) = code c ∷ codes s

-- `fixed k x` is `format(x, ".kf")` and `wide x` is `format(x, "7.2f")`. `energy` is the float of a
-- count of hundredths, and `date` the text of `%Y-%m-%d %H:%M:%S`.
pub record Formats (Float : Type 0) : Type 0 where
  pub fixed : ℕ → Float → Text
  pub wide : Float → Text
  pub zero_float : Float
  pub add_float : Float → Float → Float
  pub energy : ℕ → Float
  pub date : Datetime → Text
  pub repr : Text → Text

-- The name of a member.
abbrev pub state_name : ChargerState → Text
state_name available = codes "AVAILABLE"
state_name idle = codes "IDLE"
state_name starting = codes "STARTING"
state_name charging = codes "CHARGING"
state_name fault = codes "FAULT"
state_name finishing = codes "FINISHING"
state_name evse_suspended = codes "EVSE_SUSPENDED"
state_name ev_suspended = codes "EV_SUSPENDED"
state_name booting = codes "BOOTING"
state_name unavailable = codes "UNAVAILABLE"

-- `str` of an integer.
abbrev pub str_int : ℤ → Text
str_int (pos n) = decimal n
str_int (negsuc n) = b'-' ∷ decimal (n + 1)

-- `_format`, with what `format(value, spec)` does.
unfoldable pub format_reading : {A : Type 0} → (A → Text) → Option A → Text
format_reading format none = codes "unknown"
format_reading format (some x) = format x

-- `text or "not set"`
abbrev pub or_not_set : Text → Text
or_not_set [] = codes "not set"
or_not_set (c ∷ s) = c ∷ s

abbrev pub url_line : OcppConfig → Text → List Text
url_line config [] = []
url_line config (c ∷ s) = (codes "url              " ++ ocpp_url str_int config) ∷ []

-- `_print_ocpp`
unfoldable pub print_ocpp : OcppConfig → List Text
print_ocpp config =
    (codes "host             " ++ or_not_set config.host)
    ∷ (codes "port             " ++ str_int config.port)
    ∷ (codes "path             " ++ or_not_set config.path)
    ∷ (codes "charge point id  " ++ or_not_set config.charge_point_id)
    ∷ url_line config config.host

-- The two lines of `_cmd_password`.
unfoldable pub password_lines : ℕ → List Text
password_lines n =
    (codes "password 0x" ++ hex_six n ++ codes " (" ++ decimal n ++ codes ")")
    ∷ codes
        "keep this private, it is what lets anyone start and stop your charger. Pass it back through the SPINEV_BLE_PASSWORD environment variable rather than on the command line."
    ∷ []

-- `", ".join(names)`
unfoldable pub join_commas : List String → Text
join_commas [] = []
join_commas (s ∷ []) = codes s
join_commas (s ∷ t ∷ ts) = codes s ++ codes ", " ++ join_commas (t ∷ ts)

abbrev pub alarm_text : List String → Text
alarm_text [] = codes "none"
alarm_text (s ∷ ss) = join_commas (s ∷ ss)

-- The state by its name, or its number.
unfoldable pub state_text : Option ChargerState → Option ℕ → Text
unfolding format_reading
state_text (some s) v = state_name s
state_text none none = codes "unknown (None)"
state_text none (some v) = codes "unknown (" ++ decimal v ++ codes ")"

module _ {Float : Type 0} (f : Formats Float) where
  -- The lines of `_cmd_status`.
  unfoldable pub status_lines : ChargerStatus Float → List Text
  unfolding format_reading state_text join_commas
  status_lines s =
      (codes "state            " ++ state_text s.state s.state_value)
      ∷ (codes "power            " ++ format_reading (f.fixed 0) s.power_w ++ codes " W")
      ∷ (codes "voltage          " ++ format_reading (f.fixed 1) s.voltage_v ++ codes " V")
      ∷ (codes "current          " ++ format_reading (f.fixed 2) s.current_a ++ codes " A")
      ∷ (codes "current limit    " ++ format_reading (f.fixed 1) s.current_limit_a ++ codes " A")
      ∷ (codes "session energy   "
          ++ format_reading (λ e. f.fixed 2 (f.energy e)) s.session_energy
          ++ codes " kWh")
      ∷ (codes "session time     " ++ format_reading decimal s.session_seconds ++ codes " s")
      ∷ (codes "lifetime energy  "
          ++ format_reading (λ e. f.fixed 2 (f.energy e)) s.lifetime_energy
          ++ codes " kWh")
      ∷ (codes "lifetime time    " ++ format_reading decimal s.lifetime_seconds ++ codes " s")
      ∷ (codes "firmware         " ++ format_reading (λ t. t) s.firmware_version)
      ∷ (codes "alarms           " ++ alarm_text s.alarms)
      ∷ []

  abbrev pub session_line : ChargingSession → Text
  session_line s =
      f.date s.start
      ++ codes " to "
      ++ f.date s.end
      ++ codes "  "
      ++ f.wide (f.energy s.energy)
      ++ codes " kWh"

  -- `total += session.energy_kwh`, from `0.0`.
  unfoldable pub total_energy : List ChargingSession → Float
  total_energy = foldl (λ total s. f.add_float total (f.energy s.energy)) f.zero_float

  -- The lines of `_cmd_history`. The last begins with a line break.
  unfoldable pub history_lines : List ChargingSession → List Text
  unfolding total_energy
  history_lines [] = codes "no history returned" ∷ []
  history_lines (s ∷ ss) =
      map session_line (s ∷ ss)
      ++ (10 ∷ decimal (length (s ∷ ss))
          ++ codes " sessions, "
          ++ f.fixed 2 (total_energy (s ∷ ss))
          ++ codes " kWh total")
        ∷ []

  abbrev pub found_line : Device × Text → Text
  found_line (d, name) =
      d.address ++ codes "  serial " ++ serial name ++ codes "  name " ++ f.repr name

  -- The lines of `_cmd_scan`.
  unfoldable pub scan_lines : List (Device × Text) → List Text
  scan_lines [] = codes "no chargers found" ∷ []
  scan_lines (m ∷ ms) = map found_line (m ∷ ms)
