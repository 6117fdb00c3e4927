-- ===== src/Protocol/Clock.antt =====
-- The clock frames of src/spinev_ble/protocol.py. The arguments are Python's signed integers, and
-- are natural numbers once their range has been checked.
pub mod Packing
use Prim.Native.Nat.{bit_or}
use spinev_ble.Base.{ℕ, ◌-◌, Bool, ◌&&◌}
use spinev_ble.Base.Int.{ℤ, pos, pos_part, ltb_ℤ, leb_ℤ}
use spinev_ble.Base.Bits.{shl}
use spinev_ble.Errors.{Result, ◌>>=◌, ◌>>◌, require, protocol_error}
use spinev_ble.Const.{year_epoch}
use spinev_ble.Const.Registers.{register_value, clock_time, clock_date, timezone}
use spinev_ble.Models.{Bytes}
use spinev_ble.Protocol.Frames.{build_write_uint}

-- `0 <= x < n`
abbrev pub in_range : ℤ → ℕ → Bool
in_range x n = leb_ℤ (pos 0) x && ltb_ℤ x (pos n)

-- `lo <= x <= hi`
abbrev pub between : ℕ → ℤ → ℕ → Bool
between lo x hi = leb_ℤ (pos lo) x && leb_ℤ x (pos hi)

unfoldable pub build_clock_time : ℤ → ℤ → ℤ → Result Bytes
build_clock_time hour minute second = do
  require (in_range hour 24 && in_range minute 60 && in_range second 60) protocol_error
  build_write_uint (register_value clock_time)
      (bit_or (bit_or (shl (pos_part second) 16) (shl (pos_part minute) 8)) (pos_part hour))

unfoldable pub build_clock_date : ℤ → ℤ → ℤ → Result Bytes
build_clock_date year month day = do
  require (between 1900 year 2155 && between 1 month 12 && between 1 day 31) protocol_error
  build_write_uint (register_value clock_date) (
      bit_or (bit_or (shl (pos_part day) 16) (shl (pos_part month - 1) 8))
        (pos_part year - year_epoch))

unfoldable pub build_timezone : ℤ → ℤ → Result Bytes
build_timezone hours minutes = do
  require (in_range hours 24 && in_range minutes 60) protocol_error
  build_write_uint (register_value timezone) (bit_or (shl (pos_part hours) 8) (pos_part minutes))
