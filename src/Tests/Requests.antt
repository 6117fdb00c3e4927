-- ===== src/Tests/Requests.antt =====
-- The theorems on requests, callbacks and single reads on concrete runs.
use spinev_ble.Base.{none, ◌≡◌, refl, true, false, List, [], ◌∷◌, ◌++◌, All, arith}
use spinev_ble.Errors.{
  type_error, unsupported_error, Exception, spinev, builtin_value_error, struct_error,
  other_exception, Result, ok, err, raise, timeout_error, connection_error, builtin_timeout_error,
}
use spinev_ble.Const.Registers.{Register}
use spinev_ble.Models.{Bytes}
use spinev_ble.Protocol.Frames.{is_reply}
use spinev_ble.Protocol.Frames.Value.{be_bytes}
use spinev_ble.Charger.State.{init_client}
use spinev_ble.Charger.State.Callbacks.{matches}
use spinev_ble.Charger.Exchange.{
  Event, notify, drop, send_done, expire, wake, exchange, run_events, begin, with_deadline,
  finished,
}
use spinev_ble.Charger.Exchange.Outcomes.{noise}
use spinev_ble.Charger.Exchange.Invariant.{IsSound}
use spinev_ble.Charger.Exchange.Sound.{IsIdle, exchange-IsSound}
use spinev_ble.Charger.Exchange.Ends.{is_left, begin_finishes}
use spinev_ble.Charger.Exchange.Answers.{before, held, answering, exchange_answered}
use spinev_ble.Charger.Exchange.Fails.{exchange_fails}
use spinev_ble.Charger.Settings.Frames.{timezone_frames_lem}
use spinev_ble.Charger.Write.{send_frame}
use spinev_ble.Charger.Write.Sound.{IsPackaged, send_frame-IsPackaged}
use spinev_ble.Charger.Reads.{read_uint, get_timezone}
use spinev_ble.Charger.Reads.Values.{read_uint_answered, get_timezone_answered}
use spinev_ble.Tests.Data.{
  fresh, fresh_session, answering_world, timezone_reply, stray_reply, timezone_read,
}

abbrev strays : List Bytes
strays = stray_reply ∷ []

matching : matches 0x78 0 timezone_reply ≡ true
unfolding is_reply
matching = refl

not_matching : All (λ q. matches 0x78 0 q ≡ false) strays
unfolding is_reply
not_matching = (refl, tt)

exchange-IsSound_example :
    let (r, c') = exchange true (notify timezone_reply ∷ drop ∷ []) timezone_read 0x78 fresh in
    IsSound 0x78 0 r × IsIdle c'
exchange-IsSound_example =
    exchange-IsSound timezone_read 0x78 fresh (refl, refl) true (notify timezone_reply ∷ drop ∷ [])

exchange_answered_example :
    (exchange true
      (answering held timezone_reply strays strays ++ drop ∷ [])
      timezone_read
      0x78
      fresh).0
    ≡ ok timezone_reply
exchange_answered_example =
    exchange_answered timezone_read 0x78 fresh (refl, refl) held timezone_reply strays strays
      (drop ∷ []) not_matching not_matching matching

send_frame-IsPackaged_example :
    let (r, c') = send_frame (drop ∷ wake ∷ []) fresh in IsPackaged r × IsIdle c'
send_frame-IsPackaged_example = send_frame-IsPackaged fresh (refl, refl) (drop ∷ wake ∷ [])

abbrev uint_reply : Bytes
uint_reply = 0x10 ∷ 0xAC ∷ 0xC2 ∷ 0 ∷ be_bytes 600

read_uint_answered_example :
    (read_uint (answering_world uint_reply) Register.random_delay fresh_session).0 ≡ ok 600
read_uint_answered_example =
    read_uint_answered (answering_world uint_reply) fresh_session before Register.random_delay 600
      [] [] [] (omega arith) (refl, refl) refl tt tt refl

get_timezone_answered_example :
    (get_timezone (answering_world timezone_reply) fresh_session).0 ≡ ok (5, 30)
get_timezone_answered_example =
    get_timezone_answered (answering_world timezone_reply) fresh_session before 5 30
      (0x10 ∷ 0xAC ∷ 0x78 ∷ 1 ∷ 0 ∷ 0 ∷ 5 ∷ 30 ∷ []) [] [] [] (omega arith) (omega arith)
      (timezone_frames_lem 5 30 (omega arith) (omega arith)) (refl, refl) refl tt tt refl

exchange_fails_example :
    let outcome_of : List Event → Result Bytes =
      λ course. (exchange true (course ++ drop ∷ []) timezone_read 0x78 fresh).0 in
    let failing : Exception → Result Bytes =
      λ e. outcome_of (noise strays ++ send_done (err e) ∷ wake ∷ []) in
    let behind_send : List Event → List Event =
      λ course. noise strays ++ ((send_done (ok tt) ∷ wake ∷ []) ++ (noise strays ++ course)) in
    ((outcome_of (noise strays ++ drop ∷ wake ∷ []) ≡ raise connection_error)
      × (outcome_of (behind_send (drop ∷ wake ∷ [])) ≡ raise connection_error))
    × ((failing (spinev unsupported_error) ≡ raise unsupported_error)
        × (failing builtin_timeout_error ≡ raise timeout_error)
        × All
            (λ e. failing e ≡ raise connection_error)
            (builtin_value_error ∷ struct_error ∷ other_exception ∷ []))
    × ((outcome_of (noise strays ++ expire ∷ wake ∷ []) ≡ raise timeout_error)
        × (outcome_of (behind_send (expire ∷ wake ∷ [])) ≡ raise timeout_error))
exchange_fails_example =
    exchange_fails timezone_read 0x78 fresh (refl, refl) unsupported_error strays strays (drop ∷ [])
      not_matching not_matching

begin_finishes_example :
    let run =
      run_events 0x78 0
        (begin timezone_read 0x78 fresh)
        (with_deadline (notify timezone_reply ∷ drop ∷ [])) in
    (r : Result Bytes) × (run.phase ≡ finished r)
    × (is_left run.send ≡ false)
    × ((later : List Event) → (run_events 0x78 0 run later).phase ≡ finished r)
begin_finishes_example = begin_finishes timezone_read 0x78 fresh (notify timezone_reply ∷ drop ∷ [])

-- The members of a device of bleak are not those of a transport.
device_refused : init_client ("address" ∷ "name" ∷ "details" ∷ []) none ≡ raise type_error
unfolding init_client
device_refused = refl

transport_taken :
    init_client
      ("timeout_hint" ∷ "is_connected" ∷ "async_connect" ∷ "async_disconnect" ∷ "async_send" ∷ [])
      none
    ≡ ok fresh
unfolding init_client
transport_taken = refl
