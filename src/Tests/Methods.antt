-- ===== src/Tests/Methods.antt =====
-- The theorems on the current limit, start and stop and the password, on concrete runs.
use spinev_ble.Base.{
  ℕ, ◌≡◌, refl, ◌&&◌, true, false, some, [], ◌∷◌, ◌++◌, take, ◌^◌, ◌<◌, ◌+◌, ◌*◌, leb,
}
use spinev_ble.Base.Dict.{lookup, insert, erase}
use spinev_ble.Base.Int.{pos}
use spinev_ble.Errors.{ok, raise, password_error}
use spinev_ble.Const.Registers.{start, command_value, register_value, control}
use spinev_ble.Const.States.{is_session_open}
use spinev_ble.Models.{Bytes}
use spinev_ble.Protocol.Frames.{is_reply, build_read, decode_uint, parse_frame}
use spinev_ble.Protocol.Frames.Value.{be_bytes}
use spinev_ble.Protocol.Control.{PyValue, int, object}
use spinev_ble.Protocol.Control.Echo.{control_frame}
use spinev_ble.Protocol.History.{is_history_record}
use spinev_ble.Charger.State.{on_notify}
use spinev_ble.Charger.Exchange.{notify, send_done, wake, exchange, run_events, begin}
use spinev_ble.Charger.Session.{World, Session, request}
use spinev_ble.Charger.Control.{require_password, send_control}
use spinev_ble.Charger.Control.Commands.{send_control_echoed, send_control_bad_password}
use spinev_ble.Charger.Limit.{set_current_limit, check_no_session}
use spinev_ble.Charger.Limit.Guards.{set_current_limit_guarded}
use spinev_ble.Charger.Reads.{get_state_value, read_uint, read_raw, value_bytes}
use spinev_ble.Charger.Settings.Methods.{commit_if}
use spinev_ble.Tests.Data.{fresh, fresh_session, known_session, answering_world, amperes}

-- A charger that answers the read of its state with idle, and a write of the limit with an
-- acknowledgement.
abbrev echo : Bytes → Bytes
echo frame = take 4 frame ++ 0 ∷ 0 ∷ 0 ∷ 2 ∷ []

abbrev idle_world : World
idle_world = record {
  connected = λ _. true;
  events = λ _ frame. notify (echo frame) ∷ send_done (ok tt) ∷ wake ∷ [];
  arrivals = λ _. [];
}

limit_set : (set_current_limit idle_world amperes 16 32 false false fresh_session).0 ≡ ok tt
unfolding set_current_limit check_no_session get_state_value read_uint read_raw build_read request
    exchange run_events begin on_notify is_history_record is_reply lookup insert value_bytes
    decode_uint is_session_open spinev_ble.Charger.Limit.write_limit
    spinev_ble.Protocol.Frames.build_write_float commit_if erase
limit_set = refl

set_current_limit_guarded_example :
    ((leb 6 16 && leb 16 32) ≡ true)
    × ((v : ℕ) × ((get_state_value idle_world fresh_session).0 ≡ ok v)
        × (is_session_open v ≡ false))
set_current_limit_guarded_example =
    set_current_limit_guarded idle_world amperes 16 32 false fresh_session limit_set

-- A charger in a session.
abbrev charging_world : World
charging_world = answering_world (0x10 ∷ 0xAC ∷ 0x67 ∷ 0 ∷ 0 ∷ 0 ∷ 0 ∷ 4 ∷ [])

abbrev after_state_read : Session
after_state_read = (get_state_value charging_world fresh_session).1

state_read : get_state_value charging_world fresh_session ≡ (ok 4, after_state_read)
unfolding get_state_value read_uint read_raw build_read request exchange run_events begin on_notify
    is_history_record is_reply lookup insert value_bytes decode_uint
state_read = refl

four_open : is_session_open 4 ≡ true
unfolding is_session_open
four_open = refl

-- A charger that obeys: it sends the control frame back.
abbrev obedient_world : World
obedient_world = record {
  connected = λ _. true;
  events = λ _ frame. notify frame ∷ send_done (ok tt) ∷ wake ∷ [];
  arrivals = λ _. [];
}

started : (send_control obedient_world start known_session).0 ≡ ok tt
unfolding send_control require_password spinev_ble.Charger.Control.password_or_read
    spinev_ble.Protocol.Control.build_control spinev_ble.Protocol.Frames.build_write_uint request
    exchange run_events begin on_notify is_history_record is_reply lookup insert
    spinev_ble.Protocol.Control.check_control_reply parse_frame
    spinev_ble.Protocol.Control.check_control_frame
started = refl

send_control_echoed_example :
    (p : ℕ) × (t : Session) × (flag : ℕ) × (p < 2 ^ 24)
    × (require_password obedient_world known_session ≡ (ok (int (pos p)), t))
    × ((request obedient_world (control_frame start p) (register_value control) t).0
        ≡ ok (
            0x10
            ∷ 0xAC
            ∷ register_value control
            ∷ flag
            ∷ be_bytes (command_value start * 2 ^ 24 + p)))
send_control_echoed_example = send_control_echoed obedient_world start known_session started

abbrev mistaken_session : Session
mistaken_session = record { client = record fresh { password = some object }; handed = [] }

send_control_bad_password_example :
    send_control obedient_world start mistaken_session ≡ (raise password_error, mistaken_session)
send_control_bad_password_example =
    send_control_bad_password obedient_world start mistaken_session object refl (λ p e. cc)

-- A charger with the password 0x01E240.
abbrev password_world : World
password_world = answering_world (0x10 ∷ 0xAC ∷ 0x32 ∷ 0 ∷ 0 ∷ 1 ∷ 0xE2 ∷ 0x40 ∷ [])

password_read : (require_password password_world fresh_session).0 ≡ ok (int (pos 123456))
unfolding require_password spinev_ble.Charger.Control.password_or_read
    spinev_ble.Charger.Control.get_password read_uint read_raw build_read request exchange
    run_events begin on_notify is_history_record is_reply lookup insert value_bytes decode_uint
password_read = refl
