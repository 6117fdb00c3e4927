-- ===== src/Charger/Calls/Monitor.antt =====
-- The reading methods do not change the charger.
use spinev_ble.Base.{◌≡◌, Bool, true, false, List, [], ◌∷◌, all, &&-true}
use spinev_ble.Float.{Floats}
use spinev_ble.Charger.Session.{World, Session}
use spinev_ble.Charger.Session.Quiet.{
  HasOnlyRead, HasOnlyRead-refl, HasOnlyRead-trans, quiet, IsQuiet, request-IsQuiet,
  require_transport-IsQuiet, send-IsQuiet,
}
use spinev_ble.Charger.History.{collecting}
use spinev_ble.Charger.Reads.{get_ocpp_config}
use spinev_ble.Charger.Calls
use spinev_ble.Charger.Calls.{Call, perform, perform_all}
use spinev_ble.Charger.Calls.Reading

module _ (w : World) where
  abbrev quiet_reading : Reading.Reading w quiet
  unfolding collecting
  quiet_reading = record {
    asks = request-IsQuiet w;
    sends = send-IsQuiet w;
    opens = require_transport-IsQuiet w;
    clears = record { keeps = HasOnlyRead-refl };
    takes = record { keeps = HasOnlyRead-refl };
    collects = λ timeout. record { keeps = HasOnlyRead-refl };
  }

  pub get_ocpp_config-IsQuiet : IsQuiet (get_ocpp_config w)
  get_ocpp_config-IsQuiet = Reading.get_ocpp_config-Preserves w quiet quiet_reading

module _ (w : World) (f : Floats) where
  -- The methods that read: none of start and stop, the limit, the setters, commit and reboot.
  abbrev pub is_reading : Call f → Bool
  is_reading (Calls.read_raw_call r p) = true
  is_reading (Calls.read_string_call r) = true
  is_reading (Calls.read_uint_call r) = true
  is_reading (Calls.read_float_call r) = true
  is_reading Calls.get_state_call = true
  is_reading Calls.get_timezone_call = true
  is_reading Calls.get_ocpp_config_call = true
  is_reading Calls.get_load_balancing_call = true
  is_reading Calls.get_alarm_defs_call = true
  is_reading Calls.get_alarms_call = true
  is_reading Calls.get_status_call = true
  is_reading Calls.get_password_call = true
  is_reading (Calls.get_history_call t n) = true
  is_reading Calls.start_call = false
  is_reading Calls.stop_call = false
  is_reading (Calls.set_current_limit_call a m c o) = false
  is_reading (Calls.set_wifi_call n p c) = false
  is_reading (Calls.set_ocpp_config_call n c) = false
  is_reading (Calls.set_timezone_call h m c) = false
  is_reading (Calls.sync_clock_call t n c) = false
  is_reading (Calls.set_random_delay_call d c) = false
  is_reading (Calls.set_internet_connectivity_call e c) = false
  is_reading Calls.commit_call = false
  is_reading Calls.reboot_call = false

  perform-HasOnlyRead :
      (c : Call f) (s : Session) → is_reading c ≡ true → HasOnlyRead s (perform w f c s)
  unfolding perform
  perform-HasOnlyRead (Calls.read_raw_call r p) s h =
      (Reading.read_raw-Preserves w quiet (quiet_reading w) r p).keeps s
  perform-HasOnlyRead (Calls.read_string_call r) s h =
      (Reading.read_string-Preserves w quiet (quiet_reading w) r).keeps s
  perform-HasOnlyRead (Calls.read_uint_call r) s h =
      (Reading.read_uint-Preserves w quiet (quiet_reading w) r).keeps s
  perform-HasOnlyRead (Calls.read_float_call r) s h =
      (Reading.read_float-Preserves w quiet (quiet_reading w) f r).keeps s
  perform-HasOnlyRead Calls.get_state_call s h =
      (Reading.get_state-Preserves w quiet (quiet_reading w)).keeps s
  perform-HasOnlyRead Calls.get_timezone_call s h =
      (Reading.get_timezone-Preserves w quiet (quiet_reading w)).keeps s
  perform-HasOnlyRead Calls.get_ocpp_config_call s h =
      (Reading.get_ocpp_config-Preserves w quiet (quiet_reading w)).keeps s
  perform-HasOnlyRead Calls.get_load_balancing_call s h =
      (Reading.get_load_balancing-Preserves w quiet (quiet_reading w) f).keeps s
  perform-HasOnlyRead Calls.get_alarm_defs_call s h =
      (Reading.get_alarm_defs-Preserves w quiet (quiet_reading w)).keeps s
  perform-HasOnlyRead Calls.get_alarms_call s h =
      (Reading.get_alarms-Preserves w quiet (quiet_reading w)).keeps s
  perform-HasOnlyRead Calls.get_status_call s h =
      (Reading.get_status-Preserves w quiet (quiet_reading w) f).keeps s
  perform-HasOnlyRead Calls.get_password_call s h =
      (Reading.get_password-Preserves w quiet (quiet_reading w)).keeps s
  perform-HasOnlyRead (Calls.get_history_call t n) s h =
      (Reading.get_history-Preserves w quiet (quiet_reading w) t n).keeps s
  perform-HasOnlyRead Calls.start_call s h = cc
  perform-HasOnlyRead Calls.stop_call s h = cc
  perform-HasOnlyRead (Calls.set_current_limit_call a m c o) s h = cc
  perform-HasOnlyRead (Calls.set_wifi_call n p c) s h = cc
  perform-HasOnlyRead (Calls.set_ocpp_config_call n c) s h = cc
  perform-HasOnlyRead (Calls.set_timezone_call z m c) s h = cc
  perform-HasOnlyRead (Calls.sync_clock_call t n c) s h = cc
  perform-HasOnlyRead (Calls.set_random_delay_call d c) s h = cc
  perform-HasOnlyRead (Calls.set_internet_connectivity_call e c) s h = cc
  perform-HasOnlyRead Calls.commit_call s h = cc
  perform-HasOnlyRead Calls.reboot_call s h = cc

  -- Monitoring does not change the charger: over any transport, whatever it answers, and whether
  -- the calls succeed or raise, a sequence of calls of reading methods, the history and the password
  -- included, hands over frames of which none has the flag of a write.
  pub perform_all-HasOnlyRead :
      (calls : List (Call f)) (s : Session)
      → all is_reading calls ≡ true
      → HasOnlyRead s (perform_all w f calls s)
  unfolding perform_all
  perform_all-HasOnlyRead [] s h = HasOnlyRead-refl s
  perform_all-HasOnlyRead (c ∷ cs) s h =
      let (reading, rest) = &&-true (is_reading c) (all is_reading cs) h in
      HasOnlyRead-trans s (perform w f c s) (perform_all w f cs (perform w f c s))
        (perform-HasOnlyRead c s reading) (perform_all-HasOnlyRead cs (perform w f c s) rest)
