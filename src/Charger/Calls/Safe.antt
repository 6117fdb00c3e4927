-- ===== src/Charger/Calls/Safe.antt =====
-- Sequences of calls of the public methods.
use spinev_ble.Base.{List, [], ◌∷◌}
use spinev_ble.Float.{Floats}
use spinev_ble.Charger.Exchange.Sound.{IsIdle}
use spinev_ble.Charger.Session.{World, Session}
use spinev_ble.Charger.Session.Rules.{orderly, Follows, Follows-refl, Follows-trans}
use spinev_ble.Charger.Control.{start_charging, stop_charging}
use spinev_ble.Charger.Settings.Methods.{
  set_wifi, set_ocpp_config, set_timezone, sync_clock, set_random_delay, set_internet_connectivity,
  reboot,
}
use spinev_ble.Charger.Calls
use spinev_ble.Charger.Calls.{Call, perform, perform_all}
use spinev_ble.Charger.Calls.Reading
use spinev_ble.Charger.Calls.Orderly.{
  orderly_reading, send_control-IsOrderly, set_current_limit-IsOrderly, apply_frames-IsOrderly,
  commit-IsOrderly,
}

module _ (w : World) (f : Floats) where
  perform-Follows : (c : Call f) (s : Session) → IsIdle s.client → Follows s (perform w f c s)
  unfolding perform start_charging stop_charging set_wifi set_ocpp_config set_timezone sync_clock
      set_random_delay set_internet_connectivity reboot
  perform-Follows (Calls.read_raw_call r p) s i =
      (Reading.read_raw-Preserves w orderly (orderly_reading w) r p).keeps s i
  perform-Follows (Calls.read_string_call r) s i =
      (Reading.read_string-Preserves w orderly (orderly_reading w) r).keeps s i
  perform-Follows (Calls.read_uint_call r) s i =
      (Reading.read_uint-Preserves w orderly (orderly_reading w) r).keeps s i
  perform-Follows (Calls.read_float_call r) s i =
      (Reading.read_float-Preserves w orderly (orderly_reading w) f r).keeps s i
  perform-Follows Calls.get_state_call s i =
      (Reading.get_state-Preserves w orderly (orderly_reading w)).keeps s i
  perform-Follows Calls.get_timezone_call s i =
      (Reading.get_timezone-Preserves w orderly (orderly_reading w)).keeps s i
  perform-Follows Calls.get_ocpp_config_call s i =
      (Reading.get_ocpp_config-Preserves w orderly (orderly_reading w)).keeps s i
  perform-Follows Calls.get_load_balancing_call s i =
      (Reading.get_load_balancing-Preserves w orderly (orderly_reading w) f).keeps s i
  perform-Follows Calls.get_alarm_defs_call s i =
      (Reading.get_alarm_defs-Preserves w orderly (orderly_reading w)).keeps s i
  perform-Follows Calls.get_alarms_call s i =
      (Reading.get_alarms-Preserves w orderly (orderly_reading w)).keeps s i
  perform-Follows Calls.get_status_call s i =
      (Reading.get_status-Preserves w orderly (orderly_reading w) f).keeps s i
  perform-Follows Calls.get_password_call s i =
      (Reading.get_password-Preserves w orderly (orderly_reading w)).keeps s i
  perform-Follows Calls.start_call s i = (send_control-IsOrderly w _).keeps s i
  perform-Follows Calls.stop_call s i = (send_control-IsOrderly w _).keeps s i
  perform-Follows (Calls.set_current_limit_call a m c o) s i =
      (set_current_limit-IsOrderly w f a m c o).keeps s i
  perform-Follows (Calls.set_wifi_call n p c) s i = (apply_frames-IsOrderly w _ c).keeps s i
  perform-Follows (Calls.set_ocpp_config_call n c) s i = (apply_frames-IsOrderly w _ c).keeps s i
  perform-Follows (Calls.set_timezone_call h m c) s i = (apply_frames-IsOrderly w _ c).keeps s i
  perform-Follows (Calls.sync_clock_call t n c) s i = (apply_frames-IsOrderly w _ c).keeps s i
  perform-Follows (Calls.set_random_delay_call d c) s i = (apply_frames-IsOrderly w _ c).keeps s i
  perform-Follows (Calls.set_internet_connectivity_call e c) s i =
      (apply_frames-IsOrderly w _ c).keeps s i
  perform-Follows Calls.commit_call s i = (commit-IsOrderly w).keeps s i
  perform-Follows Calls.reboot_call s i = (commit-IsOrderly w).keeps s i
  perform-Follows (Calls.get_history_call t n) s i =
      (Reading.get_history-Preserves w orderly (orderly_reading w) t n).keeps s i

  -- Over any transport, any sequence of calls that begins with nothing in flight ends with nothing
  -- in flight, whether the calls succeed or raise, and only adds to what the transport was handed.
  pub perform_all-Follows :
      (calls : List (Call f)) (s : Session) → IsIdle s.client → Follows s (perform_all w f calls s)
  unfolding perform_all
  perform_all-Follows [] s i = Follows-refl s i
  perform_all-Follows (c ∷ cs) s i =
      let once = perform-Follows c s i in
      Follows-trans once (perform_all-Follows cs (perform w f c s) once.idle)
