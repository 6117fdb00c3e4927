-- ===== src/Tests/Cli.antt =====
-- The theorems on the command line, on concrete arguments.
use spinev_ble.Base.{
  ℕ, ◌+◌, ◌==◌, if◌then◌else◌, length, replicate, take, get_or, ◌≡◌, refl, ap, ◌∙◌, Bool, true,
  false, leb, ◌&&◌, none, some, [], ◌∷◌, ◌++◌, All, inr, arith,
}
use spinev_ble.Base.Int.{ℤ, pos, pos_part}
use spinev_ble.Errors.{Result, ok}
use spinev_ble.Charger.Exchange.{notify, send_done, wake}
use spinev_ble.Models.{Bytes, Text, OcppConfig}
use spinev_ble.Protocol.Text.{strip, is_space}
use spinev_ble.Base.Dict.{lookup, insert, erase}
use spinev_ble.Protocol.Frames.{build_read, is_reply, decode_uint}
use spinev_ble.Protocol.History.{is_history_record}
use spinev_ble.Protocol.Frames.{build_write_uint, build_commit}
use spinev_ble.Protocol.Text.{build_string_write, encode_ascii, string_frames, ljust}
use spinev_ble.Charger.Write.{send_frame, write_events, begin_write}
use spinev_ble.Charger.Session.{write_frames, require_transport, send_all, send}
use spinev_ble.Charger.Settings.{ocpp_frames, commit_frames}
use spinev_ble.Charger.Settings.Methods.{set_ocpp_config, apply_frames, commit_if, commit}
use spinev_ble.Cli.Ocpp.{wanted_ocpp, same_config, behind_read, end_write}
use spinev_ble.Protocol.Text.{decode_string, before_nul, decode_ascii}
use spinev_ble.Charger.State.{on_notify}
use spinev_ble.Charger.Exchange.{exchange, run_events, begin}
use spinev_ble.Charger.Session.{request}
use spinev_ble.Charger.Reads.{read_string, read_uint, read_raw, value_bytes, get_ocpp_config}
use spinev_ble.Charger.Session.{World, Session}
use spinev_ble.Charger.Session.Quiet.{HasOnlyRead}
use spinev_ble.Cli.{done}
use spinev_ble.Cli.Find.{Device, scan}
use spinev_ble.Cli.Find.Serial.{IsChargerName, scan-named}
use spinev_ble.Cli.Ocpp.{charger_host, OcppArgs, written, unchanged, cmd_ocpp}
use spinev_ble.Cli.Ocpp.Again.{cmd_ocpp_again}
use spinev_ble.Cli.Ocpp.Harmless.{cmd_ocpp_harmless}
use spinev_ble.Tests.Data.{fresh, fresh_session, silent_world}

-- No text is an address.
abbrev never : Text → Bool
never s = false

-- " ha "
abbrev spaced_host : Text
spaced_host = b' ' ∷ b'h' ∷ b'a' ∷ b' ' ∷ []

abbrev config_of : ℕ → OcppConfig
config_of c = record { host = c ∷ []; port = pos 1; path = b'p' ∷ []; charge_point_id = b'p' ∷ [] }

-- One digit, in place of Python's text of an integer.
abbrev one_digit : ℤ → Text
one_digit n = (48 + pos_part n) ∷ []

abbrev digits : ℕ → Bool
digits c = leb 48 c && leb c 57

digits_not_space : (c : ℕ) → digits c ≡ true → is_space c ≡ false
unfolding is_space
digits_not_space c h = ground arith

-- " 000000000000_00aF"
abbrev charger_device : Device
charger_device = record {
  address = b'A' ∷ [];
  name = some (
      b' ' ∷ b'0' ∷ b'0' ∷ b'0' ∷ b'0' ∷ b'0' ∷ b'0' ∷ b'0' ∷ b'0' ∷ b'0' ∷ b'0' ∷ b'0' ∷ b'0'
      ∷ b'_' ∷ b'0' ∷ b'0' ∷ b'a' ∷ b'F' ∷ []);
}

abbrev nameless : Device
nameless = record { address = b'B' ∷ []; name = none }

scan-named_example :
    All (λ m. IsChargerName digits m.1) (scan digits (nameless ∷ charger_device ∷ []))
scan-named_example = scan-named digits refl digits_not_space (nameless ∷ charger_device ∷ [])

abbrev bad_port : OcppArgs
bad_port = record {
  host = some spaced_host;
  port = some (pos 0);
  path = none;
  charge_point_id = none;
}

cmd_ocpp_harmless_example :
    ((cmd_ocpp never silent_world bad_port fresh_session).1
      ≡ (get_ocpp_config silent_world fresh_session).1)
    × HasOnlyRead fresh_session (cmd_ocpp never silent_world bad_port fresh_session).1
cmd_ocpp_harmless_example =
    cmd_ocpp_harmless never silent_world bad_port fresh_session
      (inr (pos 0, refl, λ (n, e, h, _). ground arith))

-- Every text is an address.
abbrev always : Text → Bool
always s = true

-- The value of a register: "h" or "c" as the host, port 1, and "p" as the path and the id.
abbrev value_of : Bool → ℕ → Bytes
value_of changed register =
    if register == 0x64
    then (if changed then b'h' else b'c') ∷ 0 ∷ 0 ∷ 0 ∷ []
    else if register == 0x5E
    then 0 ∷ 0 ∷ 0 ∷ 1 ∷ []
    else b'p' ∷ 0 ∷ 0 ∷ 0 ∷ []

-- A charger that has the new host behind the first eight frames.
abbrev ocpp_world : World
ocpp_world = record {
  connected = λ _. true;
  events = λ handed frame.
      if get_or frame 3 0 == 0
      then notify (take 4 frame ++ value_of (leb 8 (length handed)) (get_or frame 2 0))
        ∷ send_done (ok tt)
        ∷ wake
        ∷ []
      else send_done (ok tt) ∷ wake ∷ [];
  arrivals = λ _. [];
}

abbrev new_host : OcppArgs
new_host = record { host = some (b'h' ∷ []); port = none; path = none; charge_point_id = none }

-- A later client, behind a first that handed over eight frames.
abbrev later_session : Session
later_session = record { client = fresh; handed = replicate 8 [] }

abbrev first_reads : Session
first_reads = (get_ocpp_config ocpp_world fresh_session).1

abbrev later_reads : Session
later_reads = (get_ocpp_config ocpp_world later_session).1

first_read : get_ocpp_config ocpp_world fresh_session ≡ (ok (config_of b'c'), first_reads)
unfolding get_ocpp_config read_string build_read request exchange run_events begin on_notify
    is_history_record is_reply lookup insert erase read_uint read_raw value_bytes decode_uint
    decode_string before_nul decode_ascii strip
first_read = refl

later_read : get_ocpp_config ocpp_world later_session ≡ (ok (config_of b'h'), later_reads)
unfolding get_ocpp_config read_string build_read request exchange run_events begin on_notify
    is_history_record is_reply lookup insert erase read_uint read_raw value_bytes decode_uint
    decode_string before_nul decode_ascii strip
later_read = refl

first_write : (set_ocpp_config ocpp_world (config_of b'h') true first_reads).0 ≡ ok tt
unfolding get_ocpp_config read_string build_read request exchange run_events begin on_notify
    is_history_record is_reply lookup insert erase read_uint read_raw set_ocpp_config apply_frames
    ocpp_frames build_string_write encode_ascii string_frames ljust build_write_uint commit_if
    commit commit_frames build_commit write_frames require_transport send_all send send_frame
    write_events begin_write value_bytes decode_uint
first_write = refl

first_run :
    (cmd_ocpp always ocpp_world new_host fresh_session).0
    ≡ done (written (config_of b'c') (config_of b'h'))
unfolding cmd_ocpp wanted_ocpp same_config charger_host strip
first_run =
    ap (λ r. (behind_read always ocpp_world new_host r).0) first_read
    ∙ ap
        (λ (r : Result (Unit {0})).
          (end_write always ocpp_world (config_of b'c') (config_of b'h')
            (r, (set_ocpp_config ocpp_world (config_of b'h') true first_reads).1)).0)
        first_write

cmd_ocpp_again_example :
    cmd_ocpp always ocpp_world new_host later_session ≡ (done unchanged, later_reads)
cmd_ocpp_again_example =
    cmd_ocpp_again always new_host ocpp_world (config_of b'c') (config_of b'h') fresh_session
      later_session later_reads first_run later_read
