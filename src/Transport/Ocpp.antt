-- ===== src/Transport/Ocpp.antt =====
-- `OcppTunnelTransport` of src/spinev_ble/transports/ocpp.py: its state, its operations, and
-- `async_send` in two parts, up to the call of `data_transfer` and behind it. Whatever happens in
-- between may have changed the state. `data_transfer` itself is the caller's: its outcome is an
-- argument.
pub mod Link
pub mod Tunnel
use spinev_ble.Base.{
  ℕ, Bool, true, false, not, ◌&&◌, Option, none, some, List, [], ◌∷◌, get_or, same, is_some,
  if◌then◌else◌,
}
use spinev_ble.Errors.{
  Exception, Result, ok, err, raise, ◌>>=◌, ◌>>◌, require, connection_error, value_error,
  unsupported_error, protocol_error,
}
use spinev_ble.Const.Registers.{is_bulk_register}
use spinev_ble.Models.{Bytes, Text}
use spinev_ble.Protocol.Frames.{is_reply}
use spinev_ble.Charger.Exchange.{package_error}
use spinev_ble.Transport.Contract.{Call, call_frame, call_disconnect}
use spinev_ble.Transport.Hex.{hex, parse_reply}

-- What `data_transfer` returns as the reply's data: `None`, text, or some other object with its
-- truth value.
pub data ReplyData : Type 0 where
  missing : ReplyData
  text : Text → ReplyData
  object : Bool → ReplyData

-- "Accepted"
abbrev pub accepted : Text
accepted = b'A' ∷ b'c' ∷ b'c' ∷ b'e' ∷ b'p' ∷ b't' ∷ b'e' ∷ b'd' ∷ []

-- `F` and `D` are the callbacks for a frame and for a disconnect.
pub record Ocpp (F D : Type 0) : Type 0 where
  pub on_frame : Option F
  pub on_disconnect : Option D

module _ {F D : Type 0} where
  -- `OcppTunnelTransport(data_transfer)`
  abbrev pub new_ocpp : Ocpp F D
  new_ocpp = record { on_frame = none; on_disconnect = none }

  abbrev pub is_connected : Ocpp F D → Bool
  is_connected o = is_some o.on_frame

  unfoldable pub connect : F → D → Ocpp F D → Ocpp F D
  connect f d o = record { on_frame = some f; on_disconnect = some d }

  unfoldable pub disconnect : Ocpp F D → Ocpp F D
  disconnect o = record { on_frame = none; on_disconnect = none }

  unfoldable pub notify_disconnected : Ocpp F D → Ocpp F D × List (Call F D)
  notify_disconnected o =
      (record { on_frame = none; on_disconnect = none }, call_disconnect o.on_disconnect)

  -- `async_send` up to the call: the text that is transferred.
  unfoldable pub send_request : Ocpp F D → Bytes → Result Text
  send_request o frame = do
    require (is_connected o) connection_error
    require (is_reply frame) value_error
    require (not (is_bulk_register (get_or frame 2 0))) unsupported_error
    ok (hex frame)

  -- The end of `async_send`, on a payload.
  unfoldable pub hand_over : Ocpp F D → Result Bytes → Result (Unit {0}) × List (Call F D)
  hand_over o (ok payload) =
      if is_reply payload
      then (ok tt, call_frame o.on_frame payload)
      else (raise protocol_error, [])
  hand_over o (err e) = (err e, [])

  -- What follows an accepted answer, by its data.
  unfoldable pub receive_data : Ocpp F D → ReplyData → Result (Unit {0}) × List (Call F D)
  unfolding hand_over
  receive_data o missing = (ok tt, [])
  receive_data o (text []) = (ok tt, [])
  receive_data o (text (c ∷ s)) = hand_over o (parse_reply (c ∷ s))
  receive_data o (object false) = (ok tt, [])
  receive_data o (object true) = (raise protocol_error, [])

  -- `async_send` behind the call.
  unfoldable pub receive :
      Ocpp F D → Result (Text × ReplyData) → Result (Unit {0}) × List (Call F D)
  unfolding receive_data
  receive o (err e) = (raise (package_error e), [])
  receive o (ok (status, answer)) =
      if same status accepted then receive_data o answer else (raise protocol_error, [])
