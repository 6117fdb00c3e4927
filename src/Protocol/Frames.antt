-- ===== src/Protocol/Frames.antt =====
-- Plain frames of src/spinev_ble/protocol.py: reads, writes, the parser and the value decoders.
-- A register, a flag and an unsigned value are natural numbers; `bytes` refuses a number above
-- 255 and `struct.pack` a number of more than 32 bits, each with its own exception.
pub mod Value
pub mod Reply
use spinev_ble.Base.{
  ℕ, ◌+◌, ◌*◌, ◌/◌, ◌%◌, ◌^◌, Bool, true, false, not, ◌||◌, ◌&&◌, Option, none, some, List, [], ◌∷◌,
  ◌++◌, length, take, drop, get_or, all, same, ltb, ◌==◌, if◌then◌else◌,
}
use spinev_ble.Errors.{
  Result, ok, err, protocol_error, builtin_value_error, struct_error, ◌>>=◌, ◌>>◌, require,
}
use spinev_ble.Const.{frame_header, frame_length, commit_value}
use spinev_ble.Const.Registers.{
  Operation, read, write, operation_value, Register, register_value, commit,
}
use spinev_ble.Float.{Floats}
use spinev_ble.Models.{Bytes, Frame}

abbrev pub value_length : ℕ
value_length = 4

abbrev pub value_offset : ℕ
value_offset = 4

-- `bytes([...])`
unfoldable pub bytes_of : List ℕ → Result Bytes
bytes_of bs = if all (λ b. ltb b 256) bs then ok bs else err builtin_value_error

-- `struct.pack(">I", value)`
unfoldable pub pack_uint : ℕ → Result Bytes
pack_uint v =
    if ltb v (2 ^ 32)
    then ok (v / 2 ^ 24 ∷ v / 2 ^ 16 % 256 ∷ v / 2 ^ 8 % 256 ∷ v % 256 ∷ [])
    else err struct_error

-- `struct.unpack(">I", raw)[0]`, on four bytes.
unfoldable pub unpack_from : ℕ → Bytes → ℕ
unpack_from acc [] = acc
unpack_from acc (b ∷ bs) = unpack_from (acc * 256 + b) bs

-- `data.startswith(FRAME_HEADER)`
unfoldable pub has_header : Bytes → Bool
has_header bs = same (take 2 bs) frame_header

unfoldable pub build_read : ℕ → ℕ → ℕ → Result Bytes
unfolding bytes_of pack_uint
build_read register parameter flag = do
  head ← bytes_of (register ∷ flag ∷ [])
  value ← pack_uint parameter
  ok (frame_header ++ head ++ value)

unfoldable pub build_write_uint : ℕ → ℕ → Result Bytes
unfolding bytes_of pack_uint
build_write_uint register v = do
  head ← bytes_of (register ∷ operation_value write ∷ [])
  value ← pack_uint v
  ok (frame_header ++ head ++ value)

unfoldable pub build_write_float : (f : Floats) → ℕ → f.Float → Result Bytes
unfolding bytes_of
build_write_float f register x = do
  head ← bytes_of (register ∷ operation_value write ∷ [])
  value ← f.pack x
  ok (frame_header ++ head ++ value)

unfoldable pub build_commit : Result Bytes
unfolding build_write_uint
build_commit = build_write_uint (register_value commit) commit_value

unfoldable pub parse_frame : Bytes → Option Frame
unfolding has_header
parse_frame bs =
    if not (length bs == frame_length) || not (has_header bs)
    then none
    else some
        (record { register = get_or bs 2 0; flag = get_or bs 3 0; raw = drop value_offset bs })

unfoldable pub is_reply : Bytes → Bool
unfolding has_header
is_reply bs = ltb value_offset (length bs) && has_header bs

unfoldable pub check_value_length : Bytes → Result (Unit {0})
check_value_length raw = require (length raw == value_length) protocol_error

unfoldable pub decode_uint : Bytes → Result ℕ
unfolding check_value_length unpack_from
decode_uint raw = do check_value_length raw; ok (unpack_from 0 raw)

unfoldable pub decode_float : (f : Floats) → Bytes → Result f.Float
unfolding check_value_length
decode_float f raw = do check_value_length raw; ok (f.unpack raw)

-- In hundredths of a kWh, which `ENERGY_SCALE` turns into kWh.
unfoldable pub decode_energy : Bytes → Result ℕ
unfolding decode_uint
decode_energy raw = decode_uint raw
