-- ===== src/Tests/Transport.antt =====
-- The theorems on the transports and on connecting, on concrete runs. The callbacks are numbers.
use spinev_ble.Base.{
  ℕ, ◌≡◌, refl, ◌↔◌, true, false, none, some, is_some, List, [], ◌∷◌, ◌++◌, map, All, arith, ◌==◌,
}
use spinev_ble.Errors.{Result, ok, err, raise, unsupported_error, other_exception}
use spinev_ble.Const.Registers.{timezone}
use spinev_ble.Models.{Bytes, Text}
use spinev_ble.Protocol.Frames.{is_reply}
use spinev_ble.Protocol.Frames.Value.{IsByte}
use spinev_ble.Charger.Connect.Slot.{Slot, block_over_ble, block_result, block_over_ble-closes}
use spinev_ble.Charger.History.{get_history}
use spinev_ble.Charger.Reads.{read_uint}
use spinev_ble.Charger.Reads.Values.{read_reply}
use spinev_ble.Transport.Contract.{
  Op, no_link, connects, refused, disconnects, drops, arrives, specified, specified_all,
  perform_all,
}
use spinev_ble.Transport.Hex.{hex, parse_reply}
use spinev_ble.Transport.Hex.Spelling.{lower, digits_of, joined, parse_reply-ok, parse_reply-joined}
use spinev_ble.Transport.Ocpp.{Ocpp, ReplyData, new_ocpp, text, accepted}
use spinev_ble.Transport.Ocpp.Link.{ocpp_transport, ocpp_transport-Shows}
use spinev_ble.Transport.Ocpp.Tunnel.{tunnel_world}
use spinev_ble.Transport.Ocpp.Tunnel.Whole.{read_uint_tunnelled, get_history_tunnelled}
use spinev_ble.Transport.Ble.{Ble, new_ble, is_connected}
use spinev_ble.Transport.Ble.Radio.{radio_world}
use spinev_ble.Transport.Ble.Radio.Whole.{read_uint_radioed}
use spinev_ble.Transport.Ble.Link.{unlinked, ble_transport, ble_transport-Shows}
use spinev_ble.Tests.Data.{fresh_session, timezone_reply}

abbrev frame_callback : ℕ
frame_callback = 1

abbrev drop_callback : ℕ
drop_callback = 2

-- A drop with a payload before and behind it, and a disconnect with a drop behind it.
abbrev tunnel_ops : List (Op ℕ ℕ)
tunnel_ops =
    connects 1 2
    ∷ arrives timezone_reply
    ∷ drops
    ∷ arrives timezone_reply
    ∷ connects 3 4
    ∷ disconnects
    ∷ drops
    ∷ []

-- A connection that cannot be opened, and one that is there already, with other callbacks.
abbrev link_ops : List (Op ℕ ℕ)
link_ops =
    connects 1 2
    ∷ arrives timezone_reply
    ∷ drops
    ∷ refused 3 4 (no_link other_exception)
    ∷ connects 3 4
    ∷ connects 1 2
    ∷ disconnects
    ∷ []

bytes : All IsByte timezone_reply
bytes = (
  omega arith,
  (
    omega arith,
    (omega arith, (omega arith, (omega arith, (omega arith, (omega arith, (omega arith, tt)))))),
  ),
)

is_reply_here : is_reply timezone_reply ≡ true
unfolding is_reply
is_reply_here = refl

ocpp_transport-Shows_example :
    let t = ocpp_transport in
    let (up, calls) = specified_all tunnel_ops none in
    let (o, made) = perform_all t tunnel_ops new_ocpp in
    t.Shows o up × (made ≡ calls) × (t.connected o ≡ is_some up)
unfolding specified
ocpp_transport-Shows_example =
    ocpp_transport-Shows tunnel_ops
      (tt, ((bytes, is_reply_here), (tt, ((bytes, is_reply_here), (tt, (tt, (tt, tt)))))))

ble_transport-Shows_example :
    let t = ble_transport in
    let (up, calls) = specified_all link_ops none in
    let (b, made) = perform_all t link_ops unlinked in
    t.Shows b up × (made ≡ calls) × (t.connected b ≡ is_some up)
unfolding specified
ble_transport-Shows_example =
    ble_transport-Shows link_ops (tt, (refl, (refl, (tt, (tt, (tt, (tt, tt)))))))

-- "ac 10"
abbrev spaced : Text
spaced = b'a' ∷ b'c' ∷ b' ' ∷ b'1' ∷ b'0' ∷ []

parse_reply-ok_example :
    (parse_reply spaced ≡ ok (0xAC ∷ 0x10 ∷ []))
    ↔ (All IsByte (0xAC ∷ 0x10 ∷ []) × (map lower (digits_of spaced) ≡ hex (0xAC ∷ 0x10 ∷ [])))
parse_reply-ok_example = parse_reply-ok spaced (0xAC ∷ 0x10 ∷ [])

abbrev listening : Ocpp ℕ ℕ
listening = record { on_frame = some 1; on_disconnect = some 2 }

-- A server that answers every frame with the timezone.
abbrev timezone_answer : List Bytes → Text → Result (Text × ReplyData)
timezone_answer _ _ = ok (accepted, text (joined (read_reply 0x78 1310)))

read_reply_bytes : All IsByte (read_reply 0x78 1310)
read_reply_bytes = (
  omega arith,
  (
    omega arith,
    (omega arith, (omega arith, (omega arith, (omega arith, (omega arith, (omega arith, tt)))))),
  ),
)

read_uint_tunnelled_example :
    (read_uint (tunnel_world listening timezone_answer) timezone fresh_session).0 ≡ ok 1310
read_uint_tunnelled_example =
    read_uint_tunnelled listening 1 refl timezone_answer fresh_session timezone 1310
      (joined (read_reply 0x78 1310)) (omega arith) (refl, refl) refl refl
      (parse_reply-joined (read_reply 0x78 1310) read_reply_bytes)

get_history_tunnelled_example :
    (get_history (tunnel_world listening timezone_answer) 5000 40 fresh_session).0
    ≡ raise unsupported_error
get_history_tunnelled_example =
    get_history_tunnelled listening 1 refl timezone_answer 5000 40 fresh_session (omega arith)

abbrev linked : Ble ℕ ℕ
linked = record { client = some 9; on_frame = some 1; on_disconnect = some 2 }

-- A charger that acknowledges every frame, and notifies of the timezone.
abbrev acknowledged : List Bytes → Bytes → Result (Unit {0})
acknowledged _ _ = ok tt

abbrev notifying : List Bytes → Bytes → List Bytes
notifying _ _ = read_reply 0x78 1310 ∷ []

read_uint_radioed_example :
    (read_uint (radio_world (λ c. c == 9) linked acknowledged notifying) timezone fresh_session).0
    ≡ ok 1310
read_uint_radioed_example =
    read_uint_radioed (λ c. c == 9) linked 9 1 refl refl refl acknowledged notifying fresh_session
      timezone 1310 [] (omega arith) (refl, refl) refl refl tt

abbrev free_slot : Slot ℕ ℕ
free_slot = record { ble = new_ble; closed = [] }

-- A charger that lets no client subscribe.
abbrev unsubscribable : ℕ → Result (Unit {0})
unsubscribable c = err other_exception

abbrev body : Ble ℕ ℕ → Result ℕ
body b = ok 7

block_over_ble-closes_example :
    let (q, t) = block_over_ble (λ c. c == 9) 1 2 (ok 9) unsubscribable body free_slot in
    (q ≡ block_result (λ c. c == 9) 1 2 unsubscribable body free_slot refl (ok 9))
    × (t.closed ≡ [] ++ 9 ∷ [])
    × (is_connected (λ c. c == 9) t.ble ≡ false)
block_over_ble-closes_example =
    block_over_ble-closes (λ c. c == 9) 1 2 unsubscribable body free_slot refl (ok 9)
