-- ===== src/Protocol/Control.antt =====
-- Start and stop of src/spinev_ble/protocol.py: the command frame, and the check of its reply.
pub mod Echo
use Prim.Native.Nat.{bit_or}
use spinev_ble.Base.{
  ℕ, Bool, true, false, ◌||◌, ◌&&◌, not, Option, none, some, List, drop, same, ◌==◌, if◌then◌else◌,
}
use spinev_ble.Base.Int.{ℤ, pos, pos_part, leb_ℤ}
use spinev_ble.Base.Bits.{shl}
use spinev_ble.Errors.{
  Result, ok, raise, ◌>>=◌, ◌>>◌, require, password_error, protocol_error, command_rejected_error,
}
use spinev_ble.Const.{control_rejected}
use spinev_ble.Const.Registers.{Command, command_value, register_value, control}
use spinev_ble.Models.{Bytes, Frame}
use spinev_ble.Protocol.Frames.{build_write_uint, parse_frame, pack_uint, value_offset}

-- What a caller may pass as the password: an `int`, a `bool`, which is an `int` too, or some other
-- object.
pub data PyValue : Type 0 where
  int : ℤ → PyValue
  bool : Bool → PyValue
  object : PyValue

abbrev pub password_max : ℕ
password_max = 0xFFFFFF

-- `_check_password`. The number comes back for the caller, who reads the password as one.
unfoldable pub check_password : PyValue → Result ℕ
check_password (int n) = do
  require (leb_ℤ (pos 0) n && leb_ℤ n (pos password_max)) password_error
  ok (pos_part n)
check_password (bool b) = raise password_error
check_password object = raise password_error

unfoldable pub build_control : Command → PyValue → Result Bytes
unfolding check_password
build_control command password = do
  n ← check_password password
  build_write_uint (register_value control) (bit_or (shl (command_value command) 24) n)

-- The checks of a parsed reply, in the order of the source.
unfoldable pub check_control_frame : Bytes → Frame → Result (Unit {0})
check_control_frame sent frame = do
  require (frame.register == register_value control) protocol_error
  rejected ← pack_uint control_rejected
  require (not (same frame.raw rejected)) command_rejected_error
  require (same frame.raw (drop value_offset sent)) protocol_error

unfoldable pub check_control_reply : Bytes → Bytes → Result (Unit {0})
check_control_reply sent reply = elim (parse_frame reply) [
  | none ↦ raise protocol_error
  | some frame ↦ check_control_frame sent frame
]
