-- ===== src/Charger/Calls/Reading.antt =====
-- Each reading method of the client, for any relation that the reading actions preserve.
use spinev_ble.Base.{ℕ, ◌≡◌, refl, Bool, true, false, not, ◌&&◌, ◌==◌, if◌then◌else◌, List, [], ◌∷◌}
use spinev_ble.Float.{Floats}
use spinev_ble.Const.Registers.{Register, register_value, operation_value, read}
use spinev_ble.Const.{alarm_bank2_flag}
use spinev_ble.Errors.{Result, ok, err, ◌>>◌}
use spinev_ble.Models.{Bytes, AlarmDef}
use spinev_ble.Protocol.Alarms.{build_alarm_read, check_bank}
use spinev_ble.Protocol.Frames.{build_read, decode_uint}
use spinev_ble.Charger.Session.{
  World, Session, M, ◌>>=◌, lift, is_timeout, request, send, require_transport,
}
use spinev_ble.Charger.Session.Preserve.{
  Relation, Preserves, if_Between, bind-Preserves, lift_bind-Preserves, lift-Preserves,
  pure-Preserves,
}
use spinev_ble.Charger.Session.Quiet.{IsReadFrame, build_read-IsReadFrame}
use spinev_ble.Charger.Reads
use spinev_ble.Charger.Reads.{
  value_bytes, read_raw, read_string, read_uint, read_float, get_state_value, get_alarm_defs,
  get_alarms, read_alarm_word, decode_word, read_bank, read_banks,
}
use spinev_ble.Charger.Control.{get_password}
use spinev_ble.Charger.History.{clear_bulk, take_bulk, collecting, get_history, sessions_from}

alarm_frame :
    (checked : Result (Unit {0})) (is_first : Bool) (b : Bytes)
    → (do checked; if is_first then build_read 0x39 0 0 else build_read 0x39 0 alarm_bank2_flag)
      ≡ ok b
    → IsReadFrame b
alarm_frame (ok _) true b h = build_read-IsReadFrame 0x39 0 0 b refl h
alarm_frame (ok _) false b h = build_read-IsReadFrame 0x39 0 alarm_bank2_flag b refl h
alarm_frame (err e) is_first b h = cc

alarm_read-IsReadFrame : (bank : ℕ) (b : Bytes) → build_alarm_read bank ≡ ok b → IsReadFrame b
unfolding build_alarm_read
alarm_read-IsReadFrame bank b h = alarm_frame (check_bank bank) (bank == 1) b h

-- The actions that read, as a relation has to preserve them: requests and sends of read frames, and
-- those that leave the transport alone.
pub record Reading (w : World) (r : Relation) : Type 0 where
  pub asks :
      (frame : Bytes) (register : ℕ) → IsReadFrame frame → Preserves r (request w frame register)
  pub sends : (frame : Bytes) → IsReadFrame frame → Preserves r (send w frame)
  pub opens : Preserves r (require_transport w)
  pub clears : Preserves r clear_bulk
  pub takes : Preserves r take_bulk
  pub collects : (timeout : ℕ) → Preserves r (collecting w timeout)

ruleset reading = (bind-Preserves, lift-Preserves, pure-Preserves)

module _ (w : World) (r : Relation) (k : Reading w r) where
  -- A request that a builder of read frames makes.
  built-Preserves :
      {A : Type 0} (register : ℕ) (frame : Result Bytes) (f : Bytes → M A)
      → ((b : Bytes) → frame ≡ ok b → IsReadFrame b)
      → ((p : Bytes) → Preserves r (f p))
      → Preserves r (lift frame >>= λ b. request w b register >>= f)
  built-Preserves register frame f h then_on =
      lift_bind-Preserves r frame (λ b. request w b register >>= f)
        (λ b e. bind-Preserves r (request w b register) f (k.asks b register (h b e)) then_on)

  pub read_raw-Preserves : (register parameter : ℕ) → Preserves r (read_raw w register parameter)
  unfolding read_raw
  read_raw-Preserves register parameter =
      built-Preserves register (build_read register parameter (operation_value read)) _
        (λ b. build_read-IsReadFrame register parameter (operation_value read) b refl)
        (λ p. lift-Preserves r (value_bytes p))

  pub read_string-Preserves : (register : ℕ) → Preserves r (read_string w register)
  unfolding read_string
  read_string-Preserves register =
      built-Preserves register (build_read register 0 (operation_value read)) _
        (λ b. build_read-IsReadFrame register 0 (operation_value read) b refl)
        (λ p. pure-Preserves r _)

  pub read_uint-Preserves : (register : Register) → Preserves r (read_uint w register)
  unfolding read_uint
  read_uint-Preserves register = search (reading, read_raw-Preserves) depth 9

  pub read_float-Preserves :
      (f : Floats) (register : Register) → Preserves r (read_float w f register)
  unfolding read_float
  read_float-Preserves f register = search (reading, read_raw-Preserves) depth 9

  pub get_state_value-Preserves : Preserves r (get_state_value w)
  unfolding get_state_value
  get_state_value-Preserves = read_uint-Preserves _

  pub get_state-Preserves : Preserves r (Reads.get_state w)
  unfolding Reads.get_state
  get_state-Preserves = search (reading, get_state_value-Preserves) depth 9

  pub get_timezone-Preserves : Preserves r (Reads.get_timezone w)
  unfolding Reads.get_timezone
  get_timezone-Preserves = search (reading, read_uint-Preserves) depth 9

  pub get_ocpp_config-Preserves : Preserves r (Reads.get_ocpp_config w)
  unfolding Reads.get_ocpp_config
  get_ocpp_config-Preserves = search (reading, read_uint-Preserves, read_string-Preserves) depth 20

  read_alarm_word-Preserves : (bank : ℕ) → Preserves r (read_alarm_word w bank)
  unfolding read_alarm_word
  read_alarm_word-Preserves bank =
      built-Preserves (register_value Register.alarms) (build_alarm_read bank)
        (λ p. lift (value_bytes p) >>= λ raw. lift (decode_uint raw)) (alarm_read-IsReadFrame bank)
        (λ p. search reading depth 9)

  bank_case :
      (bank : ℕ) (s t : Session) (q : Result ℕ)
      → r.Between s t
      → r.Between s (decode_word bank (q, t)).1
  unfolding decode_word
  bank_case bank s t (ok word) f = f
  bank_case bank s t (err e) f =
      if_Between r (is_timeout e && not (bank == 1)) s (ok [], t) (err e, t) f f

  read_bank-Preserves : (bank : ℕ) → Preserves r (read_bank w bank)
  unfolding read_bank
  read_bank-Preserves bank = record {
    keeps = λ s. bank_case bank s _ _ ((read_alarm_word-Preserves bank).keeps s);
  }

  read_banks-Preserves :
      (banks : List ℕ) (active : List AlarmDef) → Preserves r (read_banks w banks active)
  unfolding read_banks
  read_banks-Preserves [] active = pure-Preserves r active
  read_banks-Preserves (bank ∷ banks) active =
      bind-Preserves r _ _ (read_bank-Preserves bank) (λ more. read_banks-Preserves banks _)

  pub get_alarm_defs-Preserves : Preserves r (get_alarm_defs w)
  unfolding get_alarm_defs
  get_alarm_defs-Preserves = read_banks-Preserves _ []

  pub get_alarms-Preserves : Preserves r (get_alarms w)
  unfolding get_alarms
  get_alarms-Preserves = search (reading, get_alarm_defs-Preserves) depth 9

  pub get_status-Preserves : (f : Floats) → Preserves r (Reads.get_status w f)
  unfolding Reads.get_status
  get_status-Preserves f =
      search
        (
          reading, get_state_value-Preserves, read_float-Preserves, read_uint-Preserves,
          read_raw-Preserves, get_alarms-Preserves,
        )
        depth 40

  pub get_load_balancing-Preserves : (f : Floats) → Preserves r (Reads.get_load_balancing w f)
  unfolding Reads.get_load_balancing
  get_load_balancing-Preserves f =
      search (reading, read_float-Preserves, read_uint-Preserves) depth 30

  pub get_password-Preserves : Preserves r (get_password w)
  unfolding get_password
  get_password-Preserves = search (reading, read_uint-Preserves) depth 9

  gather-Preserves :
      (timeout : ℕ)
      → Preserves r
          (collecting w timeout >>= λ _. take_bulk >>= λ records. lift (sessions_from [] records))
  gather-Preserves timeout = bind-Preserves r (collecting w timeout) _ (k.collects timeout) (λ _.
      bind-Preserves r take_bulk _ k.takes (λ records. lift-Preserves r (sessions_from [] records)))

  pub get_history-Preserves : (timeout count : ℕ) → Preserves r (get_history w timeout count)
  unfolding get_history
  get_history-Preserves timeout count = bind-Preserves r (require_transport w) _ (k.opens) (λ _.
      bind-Preserves r clear_bulk _ k.clears (λ _.
        lift_bind-Preserves r (build_read 0x68 count (operation_value read)) _ (λ frame e.
          bind-Preserves r (send w frame) _
            (k.sends frame (build_read-IsReadFrame 0x68 count 0 frame refl e))
            (λ _. gather-Preserves timeout))))
