-- ===== src/Charger/Reads/Values.antt =====
-- Reads of one register that the charger answers.
use Prim.Native.Nat.{bit_and}
use mathlib.Core.List.{append-nil}
use spinev_ble.Base.{
  sym, ℕ, ◌+◌, ◌*◌, ◌^◌, ◌<◌, ◌≡◌, refl, ap, ◌∙◌, true, false, List, [], ◌∷◌, ◌++◌, All, arith,
  get_or, drop,
}
use spinev_ble.Base.Bits.{shr, bit_and-mask}
use spinev_ble.Base.Int.{pos}
use spinev_ble.Errors.{ok}
use spinev_ble.Const.Registers.{Register, register_value, operation_value, read, timezone}
use spinev_ble.Models.{Bytes}
use spinev_ble.Protocol.Frames.{build_read, decode_uint, is_reply}
use spinev_ble.Protocol.Frames.Value.{be_bytes, build_read_lem, decode_uint-be_bytes}
use spinev_ble.Charger.State.Callbacks.{matches}
use spinev_ble.Charger.Exchange.{Event, notify, send_done, wake, exchange}
use spinev_ble.Charger.Exchange.Outcomes.{noise}
use spinev_ble.Charger.Exchange.Sound.{IsIdle}
use spinev_ble.Charger.Exchange.Answers.{Course, behind, answering, exchange_answered}
use spinev_ble.Charger.Settings.{timezone_frames}
use spinev_ble.Charger.Settings.Frames.{timezone_frames_lem}
use spinev_ble.Charger.Session.{World, Session, lift, pure, ◌>>=◌, request}
use spinev_ble.Charger.Session.Steps.{bind_ok, request_open}
use spinev_ble.Charger.Reads.{value_bytes, read_raw, read_uint, get_timezone}

-- The frame that reads a register, and the reply with a value.
abbrev pub read_frame : ℕ → Bytes
read_frame register = 0x10 ∷ 0xAC ∷ register ∷ operation_value read ∷ be_bytes 0

abbrev pub read_reply : ℕ → ℕ → Bytes
read_reply register v = 0x10 ∷ 0xAC ∷ register ∷ operation_value read ∷ be_bytes v

register_lt : (r : Register) → register_value r < 256
register_lt r = ground arith

value_bytes-read_reply : (register v : ℕ) → value_bytes (read_reply register v) ≡ ok (be_bytes v)
unfolding value_bytes
value_bytes-read_reply register v = refl

read_reply-matches :
    (register v : ℕ)
    → matches register (get_or (read_frame register) 3 0) (read_reply register v) ≡ true
unfolding is_reply
read_reply-matches register v = ground arith

module _ (w : World) (s : Session) where
  request_answered :
      (course : Course) (register v : ℕ) (ps qs : List Bytes) (rest : List Event)
      → IsIdle s.client
      → w.connected s.handed ≡ true
      → All (λ q. matches register (get_or (read_frame register) 3 0) q ≡ false) ps
      → All (λ q. matches register (get_or (read_frame register) 3 0) q ≡ false) qs
      → w.events s.handed (read_frame register)
        ≡ answering course (read_reply register v) ps qs ++ rest
      → (request w (read_frame register) register s).0 ≡ ok (read_reply register v)
  request_answered course register v ps qs rest i c h k e =
      ap (λ r. r.0) (request_open w s (read_frame register) register c)
      ∙ ap (λ events. (exchange true events (read_frame register) register s.client).0) e
      ∙ exchange_answered (read_frame register) register s.client i course (read_reply register v)
          ps qs rest h k (read_reply-matches register v)

  read_raw_of :
      (r : Register) (v : ℕ) (t : Session)
      → request w (read_frame (register_value r)) (register_value r) s
        ≡ (ok (read_reply (register_value r) v), t)
      → read_raw w (register_value r) 0 s ≡ (ok (be_bytes v), t)
  unfolding read_raw
  read_raw_of r v t h =
      bind_ok (lift (build_read (register_value r) 0 (operation_value read)))
        (λ frame. request w frame (register_value r) >>= λ p. lift (value_bytes p))
        (ap (λ q. (q, s))
          (build_read_lem (register_value r) 0 0 (register_lt r) (omega arith) (omega arith)))
      ∙ bind_ok (request w (read_frame (register_value r)) (register_value r))
          (λ p. lift (value_bytes p)) h
      ∙ ap (λ q. (q, t)) (value_bytes-read_reply (register_value r) v)

  read_uint_of :
      (r : Register) (v : ℕ) (t : Session)
      → v < 2 ^ 32
      → request w (read_frame (register_value r)) (register_value r) s
        ≡ (ok (read_reply (register_value r) v), t)
      → read_uint w r s ≡ (ok v, t)
  unfolding read_uint
  read_uint_of r v t small h =
      bind_ok (read_raw w (register_value r) 0) (λ raw. lift (decode_uint raw))
        (read_raw_of r v t h)
      ∙ ap (λ q. (q, t)) (decode_uint-be_bytes v small)

  -- Over a connected transport, with nothing in flight: if the charger answers the read of a register
  -- with a 32 bit value before the deadline, before or after the end of a send that succeeds, then the
  -- read returns that value, whatever other payloads come before, and whatever happens behind it.
  pub read_uint_answered :
      (course : Course) (r : Register) (v : ℕ) (ps qs : List Bytes) (rest : List Event)
      → v < 2 ^ 32
      → IsIdle s.client
      → w.connected s.handed ≡ true
      → All (λ q. matches (register_value r) (operation_value read) q ≡ false) ps
      → All (λ q. matches (register_value r) (operation_value read) q ≡ false) qs
      → w.events s.handed (read_frame (register_value r))
        ≡ answering course (read_reply (register_value r) v) ps qs ++ rest
      → (read_uint w r s).0 ≡ ok v
  read_uint_answered course r v ps qs rest small i c h k e =
      let t = (request w (read_frame (register_value r)) (register_value r) s).1 in
      ap (λ q. q.0)
        (read_uint_of r v t small
          (ap (λ q. (q, t)) (request_answered course (register_value r) v ps qs rest i c h k e)))

  pub read_uint_answered_late :
      (r : Register) (v : ℕ) (ps : List Bytes)
      → v < 2 ^ 32
      → IsIdle s.client
      → w.connected s.handed ≡ true
      → All (λ q. matches (register_value r) (operation_value read) q ≡ false) ps
      → w.events s.handed (read_frame (register_value r))
        ≡ (send_done (ok tt) ∷ wake ∷ [])
          ++ (noise ps ++ notify (read_reply (register_value r) v) ∷ wake ∷ [])
      → (read_uint w r s).0 ≡ ok v
  read_uint_answered_late r v ps small i c h e =
      read_uint_answered behind r v [] ps [] small i c tt h (e ∙ sym (append-nil _))

two_bytes :
    (h m : ℕ)
    → h < 256
    → m < 256
    → (bit_and (shr (h * 256 + m) 8) 0xFF ≡ h) × (bit_and (h * 256 + m) 0xFF ≡ m)
two_bytes h m a b = (
  omega (arith, bit_and-mask 8 (shr (h * 256 + m) 8)),
  omega (arith, bit_and-mask 8 (h * 256 + m)),
)

-- The timezone reads back as it was written: for an offset in range, if the charger answers, over a
-- connected transport, with nothing in flight and before the deadline, with the value bytes of the frame
-- that setting this offset sends, then the offset is what the read returns. The answer may come before
-- or after the end of a send that succeeds.
pub get_timezone_answered :
    (w : World) (s : Session) (course : Course) (h m : ℕ) (frame : Bytes) (ps qs : List Bytes)
    (rest : List Event)
    → h < 24
    → m < 60
    → timezone_frames (pos h) (pos m) ≡ ok (frame ∷ [])
    → IsIdle s.client
    → w.connected s.handed ≡ true
    → All (λ q. matches 0x78 (operation_value read) q ≡ false) ps
    → All (λ q. matches 0x78 (operation_value read) q ≡ false) qs
    → w.events s.handed (read_frame 0x78)
      ≡ answering course (0x10 ∷ 0xAC ∷ 0x78 ∷ 0 ∷ drop 4 frame) ps qs ++ rest
    → (get_timezone w s).0 ≡ ok (h, m)
unfolding get_timezone
get_timezone_answered w s course h m frame ps qs rest hh hm sets i c n k e =
    let v = h * 256 + m in
    let t = (read_uint w timezone s).1 in
    let found =
      read_uint_answered w s course timezone v ps qs rest (omega arith) i c n k
        (e ∙ ap (λ p. answering course p ps qs ++ rest) (reply_eq frame h m hh hm sets)) in
    let (a, b) = two_bytes h m (omega arith) (omega arith) in
    ap (λ q. q.0)
      (bind_ok (read_uint w timezone) (λ v. pure (bit_and (shr v 8) 0xFF, bit_and v 0xFF))
        (ap (λ q. (q, t)) found))
    ∙ (rw (a, b) refl)
  where
    bytes_eq :
        (h m : ℕ)
        → h < 24
        → m < 60
        → 0x10 ∷ 0xAC ∷ 0x78 ∷ 0 ∷ 0 ∷ 0 ∷ h ∷ m ∷ [] ≡ read_reply 0x78 (h * 256 + m)
    bytes_eq h m hh hm = ground arith

    written :
        (frame : Bytes) (h m : ℕ)
        → h < 24
        → m < 60
        → timezone_frames (pos h) (pos m) ≡ ok (frame ∷ [])
        → 0x10 ∷ 0xAC ∷ 0x78 ∷ 1 ∷ 0 ∷ 0 ∷ h ∷ m ∷ [] ≡ frame
    written frame h m hh hm sets = let sent = timezone_frames_lem h m hh hm in cc

    reply_eq :
        (frame : Bytes) (h m : ℕ)
        → h < 24
        → m < 60
        → timezone_frames (pos h) (pos m) ≡ ok (frame ∷ [])
        → 0x10 ∷ 0xAC ∷ 0x78 ∷ 0 ∷ drop 4 frame ≡ read_reply 0x78 (h * 256 + m)
    reply_eq frame h m hh hm sets =
        ap (λ f. 0x10 ∷ 0xAC ∷ 0x78 ∷ 0 ∷ drop 4 f) (sym (written frame h m hh hm sets))
        ∙ bytes_eq h m hh hm
