-- ===== src/Const.antt =====
-- src/spinev_ble/const.py: the protocol's numbers and enums. The numeric constants are the
-- source's; the enums stand in the children.
pub mod Registers
pub mod States
use spinev_ble.Base.{ℕ, List, [], ◌∷◌}

-- `b"\x10\xac"`
abbrev pub frame_header : List ℕ
frame_header = 0x10 ∷ 0xAC ∷ []

abbrev pub frame_length : ℕ
frame_length = 8

abbrev pub alarm_bank2_flag : ℕ
alarm_bank2_flag = 0x10

abbrev pub alarm_banks : List ℕ
alarm_banks = 1 ∷ 2 ∷ []

abbrev pub max_wifi_field_len : ℕ
max_wifi_field_len = 32

abbrev pub max_port : ℕ
max_port = 65535

abbrev pub wifi_field_bytes : ℕ
wifi_field_bytes = 32

abbrev pub ocpp_id_field_bytes : ℕ
ocpp_id_field_bytes = 32

abbrev pub ocpp_text_field_bytes : ℕ
ocpp_text_field_bytes = 64

abbrev pub max_random_delay_s : ℕ
max_random_delay_s = 1800

abbrev pub commit_value : ℕ
commit_value = 0x01000000

abbrev pub control_rejected : ℕ
control_rejected = 0xFFFFFFFF

abbrev pub session_record_length : ℕ
session_record_length = 26

abbrev pub event_record_length : ℕ
event_record_length = 20

abbrev pub record_start_marker : ℕ
record_start_marker = 0x7C

abbrev pub record_end_marker : ℕ
record_end_marker = 0x25

abbrev pub year_epoch : ℕ
year_epoch = 1900

-- `DEFAULT_TIMEOUT` and `BULK_IDLE_TIMEOUT`, in milliseconds.
abbrev pub default_timeout : ℕ
default_timeout = 5000

abbrev pub bulk_idle_timeout : ℕ
bulk_idle_timeout = 400

abbrev pub default_history_count : ℕ
default_history_count = 40
