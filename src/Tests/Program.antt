-- ===== src/Tests/Program.antt =====
-- The theorems on whole commands, on a charger that answers.
use spinev_ble.Base.{
  ℕ, ◌≡◌, refl, ◌⊎◌, Bool, true, false, Option, none, some, [], ◌∷◌, ◌++◌, take, get_or, ◌==◌,
  if◌then◌else◌,
}
use spinev_ble.Base.Int.{pos}
use spinev_ble.Errors.{ok}
use spinev_ble.Models.{Text}
use spinev_ble.Charger.Exchange.{notify, send_done, wake}
use spinev_ble.Charger.Session.{World}
use spinev_ble.Charger.Reads.{get_status}
use spinev_ble.Charger.Control.{get_password}
use spinev_ble.Cli.{done, returns, passes, main, system_exit, raised, default_password}
use spinev_ble.Errors.{other_exception, err, builtin_value_error}
use spinev_ble.Cli.Find.{Device}
use spinev_ble.Cli.Lines.{codes, Formats}
use spinev_ble.Cli.Number.{int_literal}
use spinev_ble.Cli.Run.{Run, Surroundings, Args}
use spinev_ble.Cli.Run.Rules.{opened_session, chosen_lines}
use spinev_ble.Cli.Commands.{cmd_password, cmd_status, run_control}
use spinev_ble.Cli.Commands.Control.{IsEchoed, Reported, run_control_reports}
use spinev_ble.Cli.Commands.Readings.{cmd_password_read_back}
use spinev_ble.Cli.Commands.Status.{Readings, IsRead, report, cmd_status-IsRead}
use spinev_ble.Cli.Program.{Options, status, handler, run_program}
use spinev_ble.Cli.Program.Closes.{Scene, over_ble, IsReleased, run_program-IsReleased}
use spinev_ble.Cli.Program.Exits.Codes.{handler_exits}
use spinev_ble.Cli.Program.Misset.{run_program_misset}
use spinev_ble.Base.Dict.{lookup, insert, erase, keys}
use spinev_ble.Const.States.{to_state}
use spinev_ble.Protocol.Frames.{
  build_read, build_write_uint, parse_frame, is_reply, decode_uint, decode_float, decode_energy,
}
use spinev_ble.Protocol.History.{is_history_record}
use spinev_ble.Protocol.Control.{build_control, check_control_reply, check_control_frame}
use spinev_ble.Protocol.Alarms.{
  build_alarm_read, decode_alarm_defs, alarm_defs_by_bank, sorted, active_defs,
}
use spinev_ble.Protocol.Text.{decode_firmware_version, join_dots}
use spinev_ble.Protocol.Text
use spinev_ble.Charger.State.{on_notify}
use spinev_ble.Charger.Exchange.{exchange, run_events, begin}
use spinev_ble.Charger.Session.{request}
use spinev_ble.Charger.Connect.{with_charger}
use spinev_ble.Charger.Control.{start_charging, send_control, require_password, password_or_read}
use spinev_ble.Charger.Reads.{
  read_uint, read_raw, value_bytes, get_state, get_state_value, read_float, get_alarms,
  get_alarm_defs, read_banks, read_bank, read_alarm_word, decode_word,
}
use spinev_ble.Cli.Find.{resolve}
use spinev_ble.Charger.Connect.Slot.{Slot}
use spinev_ble.Tests.Data.{fresh_session, silent_world, amperes}

-- Every read gives the value 4, and every other frame is echoed.
abbrev four_world : World
four_world = record {
  connected = λ _. true;
  events = λ _ frame.
      notify (if get_or frame 3 0 == 0 then take 4 frame ++ 0 ∷ 0 ∷ 0 ∷ 4 ∷ [] else frame)
      ∷ send_done (ok tt)
      ∷ wake
      ∷ [];
  arrivals = λ _. [];
}

abbrev device : Device
device = record { address = b'A' ∷ []; name = none }

-- A transport that is connected or not, and one device at any address.
abbrev surroundings : World → Surroundings Bool
surroundings w = record {
  is_decimal = λ _. false;
  discovered = ok [];
  found = λ _. ok (some device);
  make = λ _. false;
  connected = λ l. l;
  connect = λ _. (ok tt, true);
  disconnect = λ _. (ok tt, false);
  world = w;
}

abbrev args : Args
args = record { address = some (b'A' ∷ []); timeout = 1000; password = some (pos 123456) }

abbrev unread : Run Bool
unread = record { link = false; session = fresh_session; printed = [] }

-- One digit in place of the text of a float.
abbrev digit_formats : Formats ℕ
digit_formats = record {
  fixed = λ _ n. b'0' ∷ [];
  wide = λ n. b'0' ∷ [];
  zero_float = 0;
  add_float = λ m n. m;
  energy = λ n. n;
  date = λ _. [];
  repr = λ s. s;
}

started : (run_control (surroundings four_world) args true unread).0 ≡ done tt
unfolding run_control resolve with_charger request exchange run_events begin on_notify
    is_history_record is_reply lookup insert erase build_read read_uint read_raw value_bytes
    decode_uint start_charging send_control require_password password_or_read build_control
    build_write_uint check_control_reply check_control_frame parse_frame get_state get_state_value
    to_state
started = refl

password_read : (cmd_password (surroundings four_world) args unread).0 ≡ done tt
unfolding cmd_password resolve with_charger request exchange run_events begin on_notify
    is_history_record is_reply lookup insert erase build_read read_uint read_raw value_bytes
    decode_uint get_password
password_read = refl

status_read : (cmd_status (surroundings four_world) args amperes digit_formats unread).0 ≡ done tt
unfolding cmd_status resolve with_charger request exchange run_events begin on_notify
    is_history_record is_reply lookup insert erase build_read read_uint read_raw value_bytes
    decode_uint get_status get_state_value read_float decode_float decode_energy
    decode_firmware_version Text.decimal join_dots get_alarms get_alarm_defs read_banks read_bank
    read_alarm_word build_alarm_read decode_word decode_alarm_defs alarm_defs_by_bank sorted
    active_defs to_state keys
status_read = refl

not_number : int_literal (λ c. c) (b'x' ∷ []) ≡ err builtin_value_error
unfolding int_literal
not_number = refl

run_control_reports_example :
    let env = surroundings four_world in
    IsEchoed env args true (opened_session env args)
    × Reported env args true
        (opened_session env args)
        ([] ++ chosen_lines env args)
        (run_control env args true unread).1
run_control_reports_example = run_control_reports (surroundings four_world) args true unread started

cmd_password_read_back_example :
    let env = surroundings four_world in
    (p : ℕ) × (in_hex : Text) × (in_decimal : Text) × (advice : Text) × ((get_password four_world
        (opened_session env args)).0
      ≡ ok p)
    × ((cmd_password env args unread).1.printed
        ≡ ([] ++ chosen_lines env args)
          ++ (codes "password " ++ in_hex ++ codes " (" ++ in_decimal ++ codes ")") ∷ advice ∷ [])
    × (default_password (int_literal (λ c. c)) (some in_hex) ≡ done (some (pos p)))
    × (default_password (int_literal (λ c. c)) (some in_decimal) ≡ done (some (pos p)))
cmd_password_read_back_example =
    cmd_password_read_back (surroundings four_world) args (λ c. c) unread password_read

cmd_status-IsRead_example :
    let env = surroundings four_world in
    (x : Readings ℕ) × IsRead four_world amperes x
    × ((cmd_status env args amperes digit_formats unread).1.printed
        ≡ ([] ++ chosen_lines env args) ++ report digit_formats x)
cmd_status-IsRead_example =
    cmd_status-IsRead (surroundings four_world) args amperes digit_formats unread status_read

handler_exits_example :
    let x =
      main
        (handler
          (surroundings silent_world)
          amperes
          digit_formats
          (λ _. false)
          args
          status
          unread).0 in
    (x ≡ returns 0) ⊎ ((x ≡ returns 1) ⊎ (x ≡ passes system_exit))
handler_exits_example =
    handler_exits (surroundings silent_world) amperes digit_formats (λ _. false) (λ _. tt)
      (tt, λ _. tt) args status unread tt (refl, refl)

abbrev scene : Scene
scene = record {
  is_decimal = λ _. false;
  discovered = ok [];
  found = λ _. ok (some device);
  world = four_world;
}

abbrev status_words : Option Text → Options
status_words password = record {
  address = some (b'A' ∷ []);
  timeout = none;
  password = password;
  subcommand = status;
}

abbrev unopened : Run (Slot ℕ ℕ)
unopened = record {
  link = record {
    ble = record { client = none; on_frame = none; on_disconnect = none };
    closed = [];
  };
  session = fresh_session;
  printed = [];
}

run_program-IsReleased_example :
    IsReleased
      (λ _. true)
      0
      0
      (ok 7)
      (λ _. ok tt)
      scene
      unopened
      (run_program
        (λ c. c)
        (over_ble (λ _. true) 0 0 (ok 7) (λ _. ok tt) scene)
        amperes
        digit_formats
        (λ _. false)
        none
        (some (status_words none))
        unopened).1
run_program-IsReleased_example =
    run_program-IsReleased (λ _. true) 0 0 (ok 7) (λ _. ok tt) scene amperes digit_formats
      (λ _. false) (λ c. c) none (some (status_words none)) unopened

run_program_misset_example :
    (run_program
        (λ c. c)
        (surroundings four_world)
        amperes
        digit_formats
        (λ _. false)
        (some (b'x' ∷ []))
        none
        unread
      ≡ (passes (raised other_exception), unread))
    × (run_program
          (λ c. c)
          (surroundings four_world)
          amperes
          digit_formats
          (λ _. false)
          none
          (some (status_words (some (b'x' ∷ []))))
          unread
        ≡ (passes system_exit, unread))
run_program_misset_example =
    run_program_misset (λ c. c) b'x' [] not_number (surroundings four_world) amperes digit_formats
      (λ _. false) none (status_words (some (b'x' ∷ []))) unread refl
