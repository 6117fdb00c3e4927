-- ===== src/Const/Registers.antt =====
-- The enums `Operation`, `Register` and `Command` of src/spinev_ble/const.py, each with the value
-- that its members have as an `IntEnum`, and the set `BULK_REGISTERS`.
use spinev_ble.Base.{ℕ, Bool, ◌||◌, ◌==◌}

pub data Operation : Type 0 where
  read write bulk : Operation

abbrev pub operation_value : Operation → ℕ
operation_value read = 0x00
operation_value write = 0x01
operation_value bulk = 0x10

pub data Register : Type 0 where
  voltage current password session_energy alarms commit control : Register
  clock_time clock_date current_limit firmware_version : Register
  internet_connectivity session_seconds ocpp_port ocpp_path : Register
  wifi_password ocpp_charge_point_id wifi_ssid ocpp_host : Register
  lifetime_energy state history_sessions lifetime_seconds : Register
  history_events timezone power grid_current_limit : Register
  load_balancing_enabled safe_current_offset reduce_current_offset : Register
  load_balancing_source random_delay max_grid_power load_balancing_priority : Register

abbrev pub register_value : Register → ℕ
register_value voltage = 0x0A
register_value current = 0x14
register_value password = 0x32
register_value session_energy = 0x35
register_value alarms = 0x39
register_value commit = 0x3B
register_value control = 0x3C
register_value clock_time = 0x3F
register_value clock_date = 0x40
register_value current_limit = 0x4F
register_value firmware_version = 0x52
register_value internet_connectivity = 0x56
register_value session_seconds = 0x59
register_value ocpp_port = 0x5E
register_value ocpp_path = 0x60
register_value wifi_password = 0x61
register_value ocpp_charge_point_id = 0x62
register_value wifi_ssid = 0x63
register_value ocpp_host = 0x64
register_value lifetime_energy = 0x65
register_value state = 0x67
register_value history_sessions = 0x68
register_value lifetime_seconds = 0x6A
register_value history_events = 0x70
register_value timezone = 0x78
register_value power = 0x84
register_value grid_current_limit = 0x99
register_value load_balancing_enabled = 0x9A
register_value safe_current_offset = 0x9C
register_value reduce_current_offset = 0x9D
register_value load_balancing_source = 0xBD
register_value random_delay = 0xC2
register_value max_grid_power = 0xD1
register_value load_balancing_priority = 0xD2

-- `register in BULK_REGISTERS`
abbrev pub is_bulk_register : ℕ → Bool
is_bulk_register r = r == register_value history_sessions || r == register_value history_events

pub data Command : Type 0 where
  start stop : Command

abbrev pub command_value : Command → ℕ
command_value start = 0x01
command_value stop = 0x10
