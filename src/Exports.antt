-- ===== src/Exports.antt =====
-- What the package exports: the imports, `__all__` and `__getattr__` of src/spinev_ble/__init__.py and
-- of src/spinev_ble/transports/__init__.py. Only the Bluetooth transport needs bleak, and its names are
-- imported when they are asked for. The submodules and what the two files import from the standard
-- library are left out of the names that are bound.
pub mod Served
use Prim.Native.String.{String}
use text.Mathlib.Text.{◌==◌}
use spinev_ble.Base.{
  has_name, Bool, true, false, ◌||◌, Option, none, some, List, [], ◌∷◌, ◌++◌, map, if◌then◌else◌,
}

-- What a name of a module stands for: an object of one of the package's modules, the text of the
-- version, or an exception.
pub data Lookup : Type 0 where
  object_of : String → String → Lookup
  version_text import_error attribute_error : Lookup

unfoldable pub find : String → List (String × Lookup) → Option Lookup
find name [] = none
find name ((n, x) ∷ rest) = let later = find name rest in if name == n then some x else later

abbrev pub from_module : String → List String → List (String × Lookup)
from_module m = map (λ name. (name, object_of m name))

-- An attribute of a module: what it binds, and else what its `__getattr__` says.
unfoldable pub attribute : List (String × Lookup) → (String → Lookup) → String → Lookup
unfolding find
attribute bound getattr name = elim (find name bound) [ none ↦ getattr name | some x ↦ x ]

-- transports/__init__.py
abbrev pub transport_names : List (String × Lookup)
transport_names =
    from_module "base" ("DisconnectCallback" ∷ "FrameCallback" ∷ "SpinEvTransport" ∷ [])
    ++ from_module "ocpp" ("DataTransferCall" ∷ "OcppTunnelTransport" ∷ [])

-- `__all__` and `_BLE` of the transports.
abbrev pub transport_exports : List String
transport_exports =
    "BleTransport" ∷ "BleakClientLike" ∷ "ClientFactory" ∷ "DataTransferCall" ∷ "DisconnectCallback"
    ∷ "FrameCallback" ∷ "OcppTunnelTransport" ∷ "SpinEvTransport" ∷ []

abbrev pub transport_lazy : List String
transport_lazy = "BleTransport" ∷ "BleakClientLike" ∷ "ClientFactory" ∷ []

-- `__all__` and `_BLE` of the package.
abbrev pub package_exports : List String
package_exports =
    "ADVERTISED_NAME_PATTERN" ∷ "ALARMS" ∷ "ALARM_BANK2_FLAG" ∷ "ALARM_BANKS"
    ∷ "CHARACTERISTIC_UUID" ∷ "CONTROL_REJECTED" ∷ "DEFAULT_HISTORY_COUNT" ∷ "DEFAULT_MAX_CURRENT_A"
    ∷ "DEFAULT_TIMEOUT" ∷ "MAX_PORT" ∷ "MAX_RANDOM_DELAY_S" ∷ "MAX_WIFI_FIELD_LEN" ∷ "MIN_CURRENT_A"
    ∷ "OCPP_ID_FIELD_BYTES" ∷ "OCPP_TEXT_FIELD_BYTES" ∷ "SERVICE_UUID" ∷ "WIFI_FIELD_BYTES"
    ∷ "AlarmDef" ∷ "AlarmSeverity" ∷ "BleTransport" ∷ "BleakClientLike" ∷ "ChargerState"
    ∷ "ChargerStatus" ∷ "ChargingSession" ∷ "Command" ∷ "DataTransferCall" ∷ "DisconnectCallback"
    ∷ "Frame" ∷ "FrameCallback" ∷ "LoadBalancingConfig" ∷ "OcppConfig" ∷ "OcppTunnelTransport"
    ∷ "Operation" ∷ "Register" ∷ "SpinEvBusyError" ∷ "SpinEvCharger" ∷ "SpinEvCommandRejectedError"
    ∷ "SpinEvConnectionError" ∷ "SpinEvError" ∷ "SpinEvPasswordError" ∷ "SpinEvProtocolError"
    ∷ "SpinEvTimeoutError" ∷ "SpinEvTransport" ∷ "SpinEvTypeError" ∷ "SpinEvUnsupportedError"
    ∷ "SpinEvValueError" ∷ "__version__" ∷ "build_alarm_read" ∷ "build_clock_date"
    ∷ "build_clock_time" ∷ "build_commit" ∷ "build_control" ∷ "build_read" ∷ "build_string_write"
    ∷ "build_timezone" ∷ "build_write_float" ∷ "build_write_uint" ∷ "check_control_reply"
    ∷ "decode_alarm_defs" ∷ "decode_alarms" ∷ "decode_energy" ∷ "decode_firmware_version"
    ∷ "decode_float" ∷ "decode_session_record" ∷ "decode_string" ∷ "decode_uint"
    ∷ "is_history_record" ∷ "is_reply" ∷ "parse_frame" ∷ []

abbrev pub package_lazy : List String
package_lazy = "BleTransport" ∷ "BleakClientLike" ∷ []

-- Whether bleak is installed, without which `from . import ble` raises ImportError.
module _ (bleak : Bool) where
  -- `__getattr__` of the transports. The module ble binds the names that are asked of it.
  unfoldable pub transport_getattr : String → Lookup
  transport_getattr name =
      if has_name name transport_lazy
      then (if bleak then object_of "ble" name else import_error)
      else attribute_error

  unfoldable pub transport_attribute : String → Lookup
  unfolding attribute transport_getattr
  transport_attribute = attribute transport_names transport_getattr

  -- `__getattr__` of the package.
  unfoldable pub package_getattr : String → Lookup
  unfolding transport_attribute
  package_getattr name =
      if has_name name package_lazy then transport_attribute name else attribute_error

  -- What the package's imports bind.
  unfoldable pub package_names : List (String × Lookup)
  unfolding transport_attribute
  package_names =
      from_module "charger" ("SpinEvCharger" ∷ [])
      ++ from_module "const" (
          "ADVERTISED_NAME_PATTERN" ∷ "ALARM_BANK2_FLAG" ∷ "ALARM_BANKS" ∷ "CHARACTERISTIC_UUID"
          ∷ "CONTROL_REJECTED" ∷ "DEFAULT_HISTORY_COUNT" ∷ "DEFAULT_MAX_CURRENT_A"
          ∷ "DEFAULT_TIMEOUT" ∷ "MAX_PORT" ∷ "MAX_RANDOM_DELAY_S" ∷ "MAX_WIFI_FIELD_LEN"
          ∷ "MIN_CURRENT_A" ∷ "OCPP_ID_FIELD_BYTES" ∷ "OCPP_TEXT_FIELD_BYTES" ∷ "SERVICE_UUID"
          ∷ "WIFI_FIELD_BYTES" ∷ "AlarmSeverity" ∷ "ChargerState" ∷ "Command" ∷ "Operation"
          ∷ "Register" ∷ [])
      ++ from_module "exceptions" (
          "SpinEvBusyError" ∷ "SpinEvCommandRejectedError" ∷ "SpinEvConnectionError" ∷ "SpinEvError"
          ∷ "SpinEvPasswordError" ∷ "SpinEvProtocolError" ∷ "SpinEvTimeoutError" ∷ "SpinEvTypeError"
          ∷ "SpinEvUnsupportedError" ∷ "SpinEvValueError" ∷ [])
      ++ from_module "models" (
          "AlarmDef" ∷ "ChargerStatus" ∷ "ChargingSession" ∷ "Frame" ∷ "LoadBalancingConfig"
          ∷ "OcppConfig" ∷ [])
      ++ from_module "protocol" (
          "ALARMS" ∷ "build_alarm_read" ∷ "build_clock_date" ∷ "build_clock_time" ∷ "build_commit"
          ∷ "build_control" ∷ "build_read" ∷ "build_string_write" ∷ "build_timezone"
          ∷ "build_write_float" ∷ "build_write_uint" ∷ "check_control_reply" ∷ "decode_alarm_defs"
          ∷ "decode_alarms" ∷ "decode_energy" ∷ "decode_firmware_version" ∷ "decode_float"
          ∷ "decode_session_record" ∷ "decode_string" ∷ "decode_uint" ∷ "is_history_record"
          ∷ "is_reply" ∷ "parse_frame" ∷ [])
      ++ map (λ name. (name, transport_attribute name))
          ("DataTransferCall" ∷ "DisconnectCallback" ∷ "FrameCallback" ∷ "OcppTunnelTransport"
            ∷ "SpinEvTransport" ∷ [])
      ++ ("__version__", version_text) ∷ []

  unfoldable pub package_attribute : String → Lookup
  unfolding attribute package_getattr package_names
  package_attribute = attribute package_names package_getattr
