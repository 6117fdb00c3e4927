-- ===== src/Charger/Calls/Packaged/Control.antt =====
-- The exceptions that start and stop may raise.
use spinev_ble.Base.{
  ◌^◌, ◌≡◌, refl, sym, subst, not, ltb, Bool-cases, inl, inr, Option, none, some, same, ◌==◌, arith,
}
use spinev_ble.Base.Int.{pos, negsuc}
use spinev_ble.Errors.{
  Result, raise, require, password_error, protocol_error, command_rejected_error,
}
use spinev_ble.Const.Registers.{Command, register_value, control}
use spinev_ble.Models.{Bytes, Frame}
use spinev_ble.Protocol.Frames.{parse_frame, pack_uint}
use spinev_ble.Protocol.Control.{
  PyValue, int, bool, object, build_control, check_control_frame, check_control_reply,
}
use spinev_ble.Protocol.Control.Echo.{build_control_lem, build_control_refuses}
use spinev_ble.Charger.Write.Sound.{IsPackaged}
use spinev_ble.Charger.Session.{World}
use spinev_ble.Charger.Control.{
  stored_password, store_password, password_or_read, require_password, send_control,
}
use spinev_ble.Charger.Calls.Packaged.{
  Packs, bind-Packs, lift-Packs, pure-Packs, ok_packaged, then_packaged, require_packaged,
  request-Packs,
}
use spinev_ble.Charger.Calls.Packaged.Reads.{get_password-Packs}

refused : {A : Type 0} (r : Result A) → r ≡ raise password_error → IsPackaged r
refused r h = subst IsPackaged (sym h) refl

module _ (c : Command) where
  build_control_packaged : (v : PyValue) → IsPackaged (build_control c v)
  build_control_packaged (int (pos p)) = elim (Bool-cases (ltb p (2 ^ 24))) [
    | inl h ↦ ok_packaged _ _ (build_control_lem c p (ground (arith, h)))
    | inr h ↦ refused _ (
        build_control_refuses c (int (pos p))
          (λ q e. let equal : p ≡ q = cc in ground (arith, h, equal)))
  ]
  build_control_packaged (int (negsuc n)) =
      refused _ (build_control_refuses c (int (negsuc n)) (λ q e. cc))
  build_control_packaged (bool b) = refused _ (build_control_refuses c (bool b) (λ q e. cc))
  build_control_packaged object = refused _ (build_control_refuses c object (λ q e. cc))

check_frame_packaged : (sent : Bytes) (frame : Frame) → IsPackaged (check_control_frame sent frame)
unfolding check_control_frame pack_uint
check_frame_packaged sent frame =
    then_packaged (require (frame.register == register_value control) protocol_error) _
      (require_packaged _ _)
      λ _.
        then_packaged (require (not (same frame.raw _)) command_rejected_error) _
          (require_packaged _ _) λ _. require_packaged _ _

check_reply_packaged : (sent reply : Bytes) → IsPackaged (check_control_reply sent reply)
unfolding check_control_reply
check_reply_packaged sent reply = by_frame (parse_frame reply)
  where
    by_frame :
        (o : Option Frame)
        → IsPackaged (elim o as (λ _. Result (Unit {0})) [
          | none ↦ raise protocol_error
          | some frame ↦ check_control_frame sent frame
        ])
    by_frame none = refl
    by_frame (some frame) = check_frame_packaged sent frame

module _ (w : World) where
  stored-Packs : Packs stored_password
  stored-Packs = record { packs = λ s i. (tt, i) }

  store-Packs : (v : PyValue) → Packs (store_password v)
  store-Packs v = record { packs = λ s i. (tt, i) }

  password_or_read-Packs : (o : Option PyValue) → Packs (password_or_read w o)
  unfolding password_or_read
  password_or_read-Packs none = bind-Packs _ _ (get_password-Packs w) λ n. store-Packs _
  password_or_read-Packs (some v) = pure-Packs v

  pub send_control-Packs : (c : Command) → Packs (send_control w c)
  unfolding send_control require_password
  send_control-Packs c = bind-Packs _ _ (bind-Packs _ _ stored-Packs password_or_read-Packs) λ v.
      bind-Packs _ _ (lift-Packs _ (build_control_packaged c v)) λ frame.
        bind-Packs _ _ (request-Packs w frame (register_value control))
          λ reply. lift-Packs _ (check_reply_packaged frame reply)
