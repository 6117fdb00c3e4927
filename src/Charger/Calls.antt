-- ===== src/Charger/Calls.antt =====
-- The public methods of `SpinEvCharger` in src/spinev_ble/charger.py as one data type, and any
-- sequence of calls of them, each under the client's lock. A caller goes on after an exception.
pub mod Reading
pub mod Orderly
pub mod Safe
pub mod Monitor
pub mod Packaged
use spinev_ble.Base.{ℕ, Bool, List, [], ◌∷◌, Option}
use spinev_ble.Base.Int.{ℤ}
use spinev_ble.Float.{Floats}
use spinev_ble.Const.Registers.{Register, start, stop}
use spinev_ble.Models.{Text, OcppConfig, Datetime}
use spinev_ble.Charger.Session.{World, Session, M}
use spinev_ble.Charger.Reads
use spinev_ble.Charger.Reads.{read_raw, read_string, read_uint, read_float}
use spinev_ble.Charger.Control
use spinev_ble.Charger.Limit
use spinev_ble.Charger.Settings.Methods
use spinev_ble.Charger.History

pub data Call (f : Floats) : Type 0 where
  read_raw_call : ℕ → ℕ → Call f
  read_string_call : ℕ → Call f
  -- The methods that read one register as a number: the state's value, the random delay.
  read_uint_call : Register → Call f
  -- The power, the voltage, the current and the current limit.
  read_float_call : Register → Call f
  get_state_call : Call f
  get_timezone_call : Call f
  get_ocpp_config_call : Call f
  get_load_balancing_call : Call f
  get_alarm_defs_call : Call f
  get_alarms_call : Call f
  get_status_call : Call f
  get_password_call : Call f
  start_call : Call f
  stop_call : Call f
  set_current_limit_call : f.Float → f.Float → Bool → Bool → Call f
  set_wifi_call : Text → Text → Bool → Call f
  set_ocpp_config_call : OcppConfig → Bool → Call f
  set_timezone_call : ℤ → ℤ → Bool → Call f
  sync_clock_call : Option Datetime → Datetime → Bool → Call f
  set_random_delay_call : ℤ → Bool → Call f
  set_internet_connectivity_call : Bool → Bool → Call f
  commit_call : Call f
  reboot_call : Call f
  get_history_call : ℕ → ℕ → Call f

module _ (w : World) (f : Floats) where
  -- The session behind a call.
  unfoldable pub perform : Call f → Session → Session
  perform (read_raw_call r p) s = (read_raw w r p s).1
  perform (read_string_call r) s = (read_string w r s).1
  perform (read_uint_call r) s = (read_uint w r s).1
  perform (read_float_call r) s = (read_float w f r s).1
  perform get_state_call s = (Reads.get_state w s).1
  perform get_timezone_call s = (Reads.get_timezone w s).1
  perform get_ocpp_config_call s = (Reads.get_ocpp_config w s).1
  perform get_load_balancing_call s = (Reads.get_load_balancing w f s).1
  perform get_alarm_defs_call s = (Reads.get_alarm_defs w s).1
  perform get_alarms_call s = (Reads.get_alarms w s).1
  perform get_status_call s = (Reads.get_status w f s).1
  perform get_password_call s = (Control.get_password w s).1
  perform start_call s = (Control.start_charging w s).1
  perform stop_call s = (Control.stop_charging w s).1
  perform (set_current_limit_call a m c o) s = (Limit.set_current_limit w f a m c o s).1
  perform (set_wifi_call ssid password c) s = (Methods.set_wifi w ssid password c s).1
  perform (set_ocpp_config_call config c) s = (Methods.set_ocpp_config w config c s).1
  perform (set_timezone_call h m c) s = (Methods.set_timezone w h m c s).1
  perform (sync_clock_call t now c) s = (Methods.sync_clock w t now c s).1
  perform (set_random_delay_call d c) s = (Methods.set_random_delay w d c s).1
  perform (set_internet_connectivity_call e c) s = (Methods.set_internet_connectivity w e c s).1
  perform commit_call s = (Methods.commit w s).1
  perform reboot_call s = (Methods.reboot w s).1
  perform (get_history_call timeout count) s = (History.get_history w timeout count s).1

  unfoldable pub perform_all : List (Call f) → Session → Session
  perform_all [] s = s
  perform_all (c ∷ cs) s = perform_all cs (perform c s)
