-- ===== src/Charger/Settings.antt =====
-- The writing methods of `SpinEvCharger` in src/spinev_ble/charger.py that send configuration
-- frames: here the checks and the frames of each, and in `Methods` the methods.
pub mod Methods
pub mod Frames
pub mod Sent
pub mod Setters
pub mod Refused
use spinev_ble.Base.{
  ℕ, Bool, true, false, not, ◌&&◌, ◌||◌, Option, none, some, List, [], ◌∷◌, ◌++◌, length, leb, ltb,
  ◌==◌, if◌then◌else◌,
}
use spinev_ble.Base.Int.{ℤ, pos, pos_part, leb_ℤ}
use spinev_ble.Errors.{Result, ok, ◌>>=◌, ◌>>◌, require, value_error}
use spinev_ble.Const.{
  max_wifi_field_len, wifi_field_bytes, max_port, ocpp_text_field_bytes, ocpp_id_field_bytes,
  max_random_delay_s,
}
use spinev_ble.Const.Registers.{
  register_value, wifi_ssid, wifi_password, ocpp_host, ocpp_port, ocpp_path, ocpp_charge_point_id,
  random_delay, internet_connectivity,
}
use spinev_ble.Models.{Bytes, Text, OcppConfig, Datetime}
use spinev_ble.Protocol.Frames.{build_write_uint, build_commit}
use spinev_ble.Protocol.Text.{build_string_write}
use spinev_ble.Protocol.Clock.{
  in_range, between, build_clock_time, build_clock_date, build_timezone,
}

-- `value in text` for one character.
abbrev pub contains : ℕ → Text → Bool
contains c [] = false
contains c (x ∷ s) = c == x || contains c s

-- The frames of each setter, in the order of the source: its checks and its builders. They are
-- pure, so a failure here comes before anything is sent.
unfoldable pub check_wifi_field : Text → Result (Unit {0})
check_wifi_field value = do
  require (leb (length value) max_wifi_field_len) value_error
  require (not (contains b'"' value)) value_error

unfoldable pub wifi_frames : Text → Text → Result (List Bytes)
wifi_frames ssid password = do
  check_wifi_field ssid
  check_wifi_field password
  names ← build_string_write (register_value wifi_ssid) ssid wifi_field_bytes
  keys ← build_string_write (register_value wifi_password) password wifi_field_bytes
  ok (names ++ keys)

abbrev is_empty : Text → Bool
is_empty [] = true
is_empty (c ∷ s) = false

unfoldable pub ocpp_frames : OcppConfig → Result (List Bytes)
ocpp_frames config = do
  require (not (is_empty config.host)) value_error
  require (between 1 config.port max_port) value_error
  hosts ← build_string_write (register_value ocpp_host) config.host ocpp_text_field_bytes
  port ← build_write_uint (register_value ocpp_port) (pos_part config.port)
  paths ← build_string_write (register_value ocpp_path) config.path ocpp_text_field_bytes
  ids ←
      build_string_write (register_value ocpp_charge_point_id) config.charge_point_id
        ocpp_id_field_bytes
  ok (hosts ++ port ∷ paths ++ ids)

unfoldable pub timezone_frames : ℤ → ℤ → Result (List Bytes)
timezone_frames hours minutes = do
  require (in_range hours 24 && in_range minutes 60) value_error
  frame ← build_timezone hours minutes
  ok (frame ∷ [])

unfoldable pub clock_frames : Datetime → Result (List Bytes)
clock_frames moment = do
  time ← build_clock_time (pos moment.hour) (pos moment.minute) (pos moment.second)
  date ← build_clock_date (pos moment.year) (pos moment.month) (pos moment.day)
  ok (time ∷ date ∷ [])

unfoldable pub random_delay_frames : ℤ → Result (List Bytes)
random_delay_frames seconds = do
  require (between 0 seconds max_random_delay_s) value_error
  frame ← build_write_uint (register_value random_delay) (pos_part seconds)
  ok (frame ∷ [])

unfoldable pub internet_frames : Bool → Result (List Bytes)
internet_frames enabled = do
  frame ← build_write_uint (register_value internet_connectivity) (if enabled then 1 else 0)
  ok (frame ∷ [])

unfoldable pub commit_frames : Result (List Bytes)
commit_frames = do frame ← build_commit; ok (frame ∷ [])
