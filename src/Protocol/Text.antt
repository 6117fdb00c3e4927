-- ===== src/Protocol/Text.antt =====
-- Text registers of src/spinev_ble/protocol.py: the frames that write a text setting, and the
-- decoders of text and of the firmware version. A `str` is a list of code points.
pub mod Strip
pub mod Chunks
pub mod RoundTrip
use spinev_ble.Base.{
  ℕ, zero, suc, ◌+◌, ◌-◌, ◌*◌, ◌/◌, ◌%◌, Bool, true, false, not, ◌||◌, ◌&&◌, List, [], ◌∷◌, ◌++◌,
  map, length, take, drop, replicate, all, ltb, leb, ◌==◌, if◌then◌else◌,
}
use mathlib.Core.List.{reverse}
use spinev_ble.Errors.{Result, ok, err, raise, protocol_error, ◌>>=◌, ◌>>◌, require}
use spinev_ble.Const.{frame_header}
use spinev_ble.Models.{Bytes, Text}
use spinev_ble.Protocol.Frames.{bytes_of, check_value_length}

-- `value.encode("ascii")`, whose UnicodeEncodeError the caller turns into a protocol error.
unfoldable pub encode_ascii : Text → Result Bytes
encode_ascii s = if all (λ c. ltb c 128) s then ok s else raise protocol_error

-- `payload.ljust(width, b"\x00")`
unfoldable pub ljust : Bytes → ℕ → Bytes
ljust bs width = bs ++ replicate (width - length bs) 0

-- The comprehension over `range(0, field_bytes, 4)`: `n` frames left, the next one at offset
-- `4 * i`.
unfoldable pub string_frames : ℕ → Bytes → ℕ → ℕ → Result (List Bytes)
string_frames register payload i zero = ok []
string_frames register payload i (suc n) = do
  head ← bytes_of (register ∷ (i + 1) ∷ [])
  rest ← string_frames register payload (i + 1) n
  ok ((frame_header ++ head ++ take 4 (drop (4 * i) payload)) ∷ rest)

unfoldable pub build_string_write : ℕ → Text → ℕ → Result (List Bytes)
build_string_write register value field_bytes = do
  require (not (field_bytes == 0 || not (field_bytes % 4 == 0))) protocol_error
  payload ← encode_ascii value
  require (leb (length payload) field_bytes) protocol_error
  string_frames register (ljust payload field_bytes) 0 (field_bytes / 4)

-- `raw.split(b"\x00", 1)[0]`
unfoldable pub before_nul : Bytes → Bytes
before_nul [] = []
before_nul (b ∷ bs) = if b == 0 then [] else b ∷ before_nul bs

-- `raw.decode("ascii", "replace")`: a byte above 127 becomes U+FFFD.
unfoldable pub decode_ascii : Bytes → Text
decode_ascii = map (λ b. if ltb b 128 then b else 0xFFFD)

-- The characters that `str.strip` removes, by code point.
unfoldable pub is_space : ℕ → Bool
is_space c =
    (leb 9 c && leb c 13)
    || (leb 28 c && leb c 32)
    || c == 0x85
    || c == 0xA0
    || c == 0x1680
    || (leb 0x2000 c && leb c 0x200A)
    || c == 0x2028
    || c == 0x2029
    || c == 0x202F
    || c == 0x205F
    || c == 0x3000

unfoldable pub lstrip : Text → Text
lstrip [] = []
lstrip (c ∷ s) = if is_space c then lstrip s else c ∷ s

unfoldable pub strip : Text → Text
unfolding lstrip is_space
strip s = reverse (lstrip (reverse (lstrip s)))

unfoldable pub decode_string : Bytes → Text
unfolding before_nul decode_ascii
decode_string raw = strip (decode_ascii (before_nul raw))

-- `str(n)` of a number below 1000, the decimal digits.
unfoldable pub decimal : ℕ → Text
decimal n =
    if ltb n 10
    then (48 + n) ∷ []
    else if ltb n 100
    then (48 + n / 10) ∷ (48 + n % 10) ∷ []
    else (48 + n / 100) ∷ (48 + n / 10 % 10) ∷ (48 + n % 10) ∷ []

-- `".".join(...)`
unfoldable pub join_dots : List Text → Text
join_dots [] = []
join_dots (s ∷ []) = s
join_dots (s ∷ t ∷ ts) = s ++ b'.' ∷ join_dots (t ∷ ts)

unfoldable pub decode_firmware_version : Bytes → Result Text
unfolding check_value_length decimal join_dots
decode_firmware_version raw = do check_value_length raw; ok (join_dots (map decimal raw))
