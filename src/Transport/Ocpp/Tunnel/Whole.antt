-- ===== src/Transport/Ocpp/Tunnel/Whole.antt =====
-- Methods of the client over the OCPP tunnel, end to end.
use spinev_ble.Base.{
  ℕ, ◌^◌, ◌<◌, ◌≡◌, refl, ap, ◌∙◌, true, false, List, [], ◌∷◌, Option, some, arith,
}
use spinev_ble.Errors.{SpinEvError, spinev, Result, ok, raise, unsupported_error}
use spinev_ble.Const.Registers.{Register, register_value, operation_value, read, is_bulk_register}
use spinev_ble.Models.{Bytes, Text}
use spinev_ble.Protocol.Frames.{is_reply}
use spinev_ble.Protocol.Frames.Value.{be_bytes}
use spinev_ble.Charger.Exchange.{notify, send_done, wake}
use spinev_ble.Charger.Exchange.Sound.{IsIdle}
use spinev_ble.Charger.Write.Answers.{send_frame_failed}
use spinev_ble.Charger.Session.{World, Session, send}
use spinev_ble.Charger.Reads.{read_uint}
use spinev_ble.Charger.Exchange.Answers.{before}
use spinev_ble.Charger.Reads.Values.{read_frame, read_reply, read_uint_answered}
use spinev_ble.Charger.History.{get_history, clear_bulk}
use spinev_ble.Charger.History.Whole.{history_frame, get_history_unsent}
use spinev_ble.Transport.Hex.{hex, parse_reply}
use spinev_ble.Transport.Ocpp.{Ocpp, ReplyData, text, accepted, is_connected, send_request, receive}
use spinev_ble.Transport.Contract.{call_frame}
use spinev_ble.Transport.Ocpp.Link.{receive_parsed}
use spinev_ble.Transport.Ocpp.Tunnel.{after_answer, after_request, tunnel_events, tunnel_world}

frame_is_reply :
    (register flag : ℕ) (v : ℕ) → is_reply (0x10 ∷ 0xAC ∷ register ∷ flag ∷ be_bytes v) ≡ true
unfolding is_reply
frame_is_reply register flag v = refl

module _ {F D : Type 0} (o : Ocpp F D) (f : F) (listening : o.on_frame ≡ some f) where
  request_lem :
      (register flag v : ℕ)
      → is_bulk_register register ≡ false
      → send_request o (0x10 ∷ 0xAC ∷ register ∷ flag ∷ be_bytes v)
        ≡ ok (hex (0x10 ∷ 0xAC ∷ register ∷ flag ∷ be_bytes v))
  unfolding send_request
  request_lem register flag v single = ground (arith, frame_is_reply register flag v)

  request_bulk :
      (register flag v : ℕ)
      → is_bulk_register register ≡ true
      → send_request o (0x10 ∷ 0xAC ∷ register ∷ flag ∷ be_bytes v) ≡ raise unsupported_error
  unfolding send_request
  request_bulk register flag v bulk = ground (arith, frame_is_reply register flag v)

  listens : is_connected o ≡ true
  listens = ground (arith, listening)

  -- The events of a frame that is transferred, when the answer reads as a reply.
  replied :
      (answer : Text → Result (Text × ReplyData)) (frame : Bytes) (t : Text) (p : Bytes)
      → send_request o frame ≡ ok (hex frame)
      → answer (hex frame) ≡ ok (accepted, text t)
      → parse_reply t ≡ ok p
      → is_reply p ≡ true
      → tunnel_events o answer frame ≡ notify p ∷ send_done (ok tt) ∷ wake ∷ []
  unfolding tunnel_events
  replied answer frame t p asked a parsed reply =
      ap (after_request o answer) asked
      ∙ ap (λ r. after_answer (receive o r)) a
      ∙ ap after_answer (receive_parsed o t p parsed reply)
      ∙ ap (λ (g : Option F). after_answer {D = D} (ok tt, call_frame g p)) listening

  send_unsent :
      (w : World) (frame : Bytes) (u : Session) (e : SpinEvError)
      → w.events u.handed frame ≡ send_done (raise e) ∷ wake ∷ []
      → (send w frame u).0 ≡ raise e
  unfolding send
  send_unsent w frame u e h = rw h (send_frame_failed u.client (spinev e))

  module _ (charger : List Bytes → Text → Result (Text × ReplyData)) where
    -- A read over the OCPP tunnel, from the method down to the text and back: when the tunnel is
    -- connected, nothing is in flight, and the server's answer to the hexadecimal frame is accepted
    -- with a text that reads, in any spelling, as the reply with a 32 bit value, then reading the
    -- register, one that is not the history's, returns that value.
    pub read_uint_tunnelled :
        (s : Session) (r : Register) (v : ℕ) (t : Text)
        → v < 2 ^ 32
        → IsIdle s.client
        → is_bulk_register (register_value r) ≡ false
        → charger s.handed (hex (read_frame (register_value r))) ≡ ok (accepted, text t)
        → parse_reply t ≡ ok (read_reply (register_value r) v)
        → (read_uint (tunnel_world o charger) r s).0 ≡ ok v
    read_uint_tunnelled s r v t small idle single a parsed =
        let frame = read_frame (register_value r) in
        let reply = read_reply (register_value r) v in
        read_uint_answered (tunnel_world o charger) s before r v [] [] [] small idle listens tt tt (
          replied (charger s.handed) frame t reply
            (request_lem (register_value r) (operation_value read) 0 single) a parsed
            (frame_is_reply (register_value r) (operation_value read) v))

    -- The history over the OCPP tunnel: while the tunnel is connected, asking for up to 32 bits worth
    -- of sessions raises an unsupported error, whatever the server would answer.
    pub get_history_tunnelled :
        (timeout count : ℕ) (s : Session)
        → count < 2 ^ 32
        → (get_history (tunnel_world o charger) timeout count s).0 ≡ raise unsupported_error
    unfolding tunnel_events
    get_history_tunnelled timeout count s small =
        let w = tunnel_world o charger in
        let u = (clear_bulk s).1 in
        let frame = history_frame count in
        get_history_unsent w timeout count s (send w frame u).1 unsupported_error small listens (
          ap (λ r. (r, (send w frame u).1))
            (send_unsent w frame u unsupported_error (
              ap (after_request o (charger s.handed))
                (request_bulk 0x68 (operation_value read) count refl))))
