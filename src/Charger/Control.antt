-- ===== src/Charger/Control.antt =====
-- Start, stop and the password in `SpinEvCharger` of src/spinev_ble/charger.py.
pub mod Password
pub mod Commands
use Prim.Native.Nat.{bit_and}
use spinev_ble.Base.{ℕ, Option, none, some, List, [], ◌∷◌}
use spinev_ble.Base.Int.{pos}
use spinev_ble.Errors.{Result, ok}
use spinev_ble.Const.Registers.{Register, register_value, password, control, Command, start, stop}
use spinev_ble.Models.{Bytes}
use spinev_ble.Protocol.Control.{PyValue, int, build_control, check_control_reply}
use spinev_ble.Charger.Session.{World, Session, M, pure, lift, ◌>>=◌, ◌>>◌, request}
use spinev_ble.Charger.Reads.{read_uint}

-- `self._password`, read and written.
abbrev pub stored_password : M (Option PyValue)
stored_password s = (ok s.client.password, s)

abbrev pub store_password : PyValue → M PyValue
store_password v s = (ok v, record s { client = record (s.client) { password = some v } })

module _ (w : World) where
  unfoldable pub get_password : M ℕ
  get_password = do n ← read_uint w password; pure (bit_and n 0xFFFFFF)

  -- `_async_require_password`, with what is stored.
  unfoldable pub password_or_read : Option PyValue → M PyValue
  password_or_read none = do n ← get_password; store_password (int (pos n))
  password_or_read (some v) = pure v

  unfoldable pub require_password : M PyValue
  require_password = stored_password >>= password_or_read

  -- `_async_send_control`
  unfoldable pub send_control : Command → M (Unit {0})
  send_control command = do
    v ← require_password
    frame ← lift (build_control command v)
    reply ← request w frame (register_value control)
    lift (check_control_reply frame reply)

  unfoldable pub start_charging : M (Unit {0})
  start_charging = send_control start

  unfoldable pub stop_charging : M (Unit {0})
  stop_charging = send_control stop
