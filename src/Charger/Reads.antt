-- ===== src/Charger/Reads.antt =====
-- The reading methods of `SpinEvCharger` in src/spinev_ble/charger.py: single registers, alarms,
-- the status, load balancing and the OCPP settings.
pub mod Values
pub mod Alarms
use Prim.Native.Nat.{bit_and}
use Prim.Native.String.{String}
use spinev_ble.Base.{
  ℕ, Bool, true, false, not, ◌&&◌, Option, none, some, List, [], ◌∷◌, ◌++◌, map, length, take, drop,
  ◌==◌, if◌then◌else◌,
}
use spinev_ble.Base.Int.{pos}
use spinev_ble.Base.Bits.{shr}
use spinev_ble.Errors.{Result, ok, err, raise, protocol_error}
use spinev_ble.Const.{alarm_banks}
use spinev_ble.Const.Registers.{
  Register, register_value, operation_value, read, voltage, current, power, current_limit, alarms,
  session_energy, session_seconds, lifetime_energy, lifetime_seconds, firmware_version,
  load_balancing_enabled, grid_current_limit, safe_current_offset, reduce_current_offset,
  max_grid_power, load_balancing_source, load_balancing_priority, ocpp_host, ocpp_port, ocpp_path,
  ocpp_charge_point_id, timezone, random_delay, wifi_ssid, wifi_password,
}
use spinev_ble.Const.States.{ChargerState, to_state}
use spinev_ble.Float.{Floats}
use spinev_ble.Models.{Bytes, Text, AlarmDef, ChargerStatus, LoadBalancingConfig, OcppConfig}
use spinev_ble.Protocol.Frames.{
  build_read, decode_uint, decode_float, decode_energy, value_length, value_offset,
}
use spinev_ble.Protocol.Text.{decode_string, decode_firmware_version}
use spinev_ble.Protocol.Alarms.{decode_alarm_defs, build_alarm_read}
use spinev_ble.Charger.Session.{World, Session, M, pure, lift, ◌>>=◌, is_timeout, request}

-- `_value_bytes`
unfoldable pub value_bytes : Bytes → Result Bytes
value_bytes payload =
    let v = take value_length (drop value_offset payload) in
    if length v == value_length then ok v else raise protocol_error

-- What a round of `async_get_alarm_defs` makes of the outcome of its read: only the first bank's
-- silence is an error.
unfoldable pub decode_word : ℕ → Result ℕ × Session → Result (List AlarmDef) × Session
decode_word bank (ok word, s) = (decode_alarm_defs word bank, s)
decode_word bank (err e, s) = if is_timeout e && not (bank == 1) then (ok [], s) else (err e, s)

module _ (w : World) where
  unfoldable pub read_raw : ℕ → ℕ → M Bytes
  read_raw register parameter = do
    frame ← lift (build_read register parameter (operation_value read))
    payload ← request w frame register
    lift (value_bytes payload)

  unfoldable pub read_string : ℕ → M Text
  read_string register = do
    frame ← lift (build_read register 0 (operation_value read))
    payload ← request w frame register
    pure (decode_string (drop value_offset payload))

  unfoldable pub read_uint : Register → M ℕ
  read_uint r = do raw ← read_raw (register_value r) 0; lift (decode_uint raw)

  unfoldable pub get_state_value : M ℕ
  get_state_value = read_uint Register.state

  unfoldable pub get_state : M ChargerState
  get_state = do
    v ← get_state_value
    lift (elim (to_state v) [ none ↦ raise protocol_error | some s ↦ ok s ])

  unfoldable pub get_random_delay : M ℕ
  get_random_delay = read_uint random_delay

  unfoldable pub get_timezone : M (ℕ × ℕ)
  get_timezone = do v ← read_uint timezone; pure (bit_and (shr v 8) 0xFF, bit_and v 0xFF)

  unfoldable pub get_wifi_ssid : M Text
  get_wifi_ssid = read_string (register_value wifi_ssid)

  unfoldable pub get_wifi_password : M Text
  get_wifi_password = read_string (register_value wifi_password)

  unfoldable pub get_ocpp_config : M OcppConfig
  get_ocpp_config = do
    host ← read_string (register_value ocpp_host)
    port ← read_uint ocpp_port
    path ← read_string (register_value ocpp_path)
    charge_point_id ← read_string (register_value ocpp_charge_point_id)
    pure (record { host = host; port = pos port; path = path; charge_point_id = charge_point_id })

  -- `_async_read_alarm_word`
  unfoldable pub read_alarm_word : ℕ → M ℕ
  read_alarm_word bank = do
    frame ← lift (build_alarm_read bank)
    payload ← request w frame (register_value alarms)
    raw ← lift (value_bytes payload)
    lift (decode_uint raw)

  -- One round of `async_get_alarm_defs`: the alarms that it adds.
  unfoldable pub read_bank : ℕ → M (List AlarmDef)
  unfolding decode_word
  read_bank bank s = decode_word bank (read_alarm_word bank s)

  unfoldable pub read_banks : List ℕ → List AlarmDef → M (List AlarmDef)
  read_banks [] active = pure active
  read_banks (bank ∷ banks) active = read_bank bank >>= λ more. read_banks banks (active ++ more)

  unfoldable pub get_alarm_defs : M (List AlarmDef)
  get_alarm_defs = read_banks alarm_banks []

  unfoldable pub get_alarms : M (List String)
  get_alarms = do defs ← get_alarm_defs; pure (map (λ a. a.name) defs)

  module _ (f : Floats) where
    unfoldable pub read_float : Register → M f.Float
    read_float r = do raw ← read_raw (register_value r) 0; lift (decode_float f raw)

    unfoldable pub get_power : M f.Float
    get_power = read_float power

    unfoldable pub get_voltage : M f.Float
    get_voltage = read_float voltage

    unfoldable pub get_current : M f.Float
    get_current = read_float current

    unfoldable pub get_current_limit : M f.Float
    get_current_limit = read_float current_limit

    -- The reads of `_STATUS_READS` in its order, behind the state and before the alarms.
    unfoldable pub get_status : M (ChargerStatus f.Float)
    get_status = do
      v ← get_state_value
      power_w ← read_float power
      voltage_v ← read_float voltage
      current_a ← read_float current
      limit ← read_float current_limit
      session_raw ← read_raw (register_value session_energy) 0
      session ← lift (decode_energy session_raw)
      seconds ← read_uint session_seconds
      lifetime_raw ← read_raw (register_value lifetime_energy) 0
      lifetime ← lift (decode_energy lifetime_raw)
      total_seconds ← read_uint lifetime_seconds
      firmware_raw ← read_raw (register_value firmware_version) 0
      firmware ← lift (decode_firmware_version firmware_raw)
      alarm_names ← get_alarms
      pure (record {
        state = to_state v;
        state_value = some v;
        power_w = some power_w;
        voltage_v = some voltage_v;
        current_a = some current_a;
        current_limit_a = some limit;
        session_energy = some session;
        session_seconds = some seconds;
        lifetime_energy = some lifetime;
        lifetime_seconds = some total_seconds;
        firmware_version = some firmware;
        alarms = alarm_names;
      })

    unfoldable pub get_load_balancing : M (LoadBalancingConfig f.Float)
    get_load_balancing = do
      enabled ← read_uint load_balancing_enabled
      grid ← read_float grid_current_limit
      safe ← read_float safe_current_offset
      reduce ← read_float reduce_current_offset
      ceiling ← read_float max_grid_power
      source ← read_uint load_balancing_source
      priority ← read_uint load_balancing_priority
      pure (record {
        enabled = not (enabled == 0);
        grid_current_limit_a = grid;
        safe_current_offset_a = safe;
        reduce_current_offset_a = reduce;
        max_grid_power_w = ceiling;
        source = source;
        priority = priority;
      })
