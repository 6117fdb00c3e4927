-- ===== src/Transport/Hex.antt =====
-- Hexadecimal text as src/spinev_ble/transports/ocpp.py writes and reads it: Python's `bytes.hex`
-- and `bytes.fromhex`, and `_parse_reply`.
pub mod Spelling
use spinev_ble.Base.{
  ℕ, ◌+◌, ◌-◌, ◌*◌, ◌/◌, ◌%◌, Bool, true, false, not, ◌&&◌, ◌||◌, Option, none, some, List, [], ◌∷◌,
  ltb, leb, ◌==◌, if◌then◌else◌,
}
use spinev_ble.Errors.{Result, ok, err, raise, ◌>>=◌, builtin_value_error, protocol_error}
use spinev_ble.Models.{Bytes, Text}
use spinev_ble.Protocol.Text.{is_space}

-- One digit of `bytes.hex`, and the text.
unfoldable pub hex_digit : ℕ → ℕ
hex_digit v = if ltb v 10 then 48 + v else 87 + v

unfoldable pub hex : Bytes → Text
hex [] = []
hex (b ∷ bs) = hex_digit (b / 16) ∷ hex_digit (b % 16) ∷ hex bs

-- The value of a digit, in either case.
unfoldable pub digit_value : ℕ → Option ℕ
digit_value c =
    if leb 48 c && leb c 57
    then some (c - 48)
    else if leb 97 c && leb c 102
    then some (c - 87)
    else if leb 65 c && leb c 70
    then some (c - 55)
    else none

-- `bytes.fromhex` skips white space of ASCII between two bytes.
abbrev pub is_ascii_space : ℕ → Bool
is_ascii_space c = (leb 9 c && leb c 13) || (c == 32)

-- `bytes.fromhex`, with the first digit of a byte that was begun.
unfoldable pub from_hex : Option ℕ → Text → Result Bytes
from_hex none [] = ok []
from_hex (some high) [] = err builtin_value_error
from_hex none (c ∷ s) =
    let skipped = from_hex none s in
    let begun : Result Bytes = elim (digit_value c) [
      | none ↦ err builtin_value_error
      | some high ↦ from_hex (some high) s
    ] in
    if is_ascii_space c then skipped else begun
from_hex (some high) (c ∷ s) = elim (digit_value c) [
  | none ↦ err builtin_value_error
  | some low ↦ from_hex none s >>= λ bs. ok ((high * 16 + low) ∷ bs)
]

-- `text.replace("_", "")`
unfoldable pub without_underscores : Text → Text
without_underscores [] = []
without_underscores (c ∷ s) =
    let rest = without_underscores s in if c == b'_' then rest else c ∷ rest

-- `"".join(text.split())`
unfoldable pub without_spaces : Text → Text
without_spaces [] = []
without_spaces (c ∷ s) = let rest = without_spaces s in if is_space c then rest else c ∷ rest

-- The `except` clause of `_parse_reply`.
abbrev pub not_hex : Result Bytes → Result Bytes
not_hex (ok bs) = ok bs
not_hex (err builtin_value_error) = raise protocol_error
not_hex (err e) = err e

unfoldable pub parse_reply : Text → Result Bytes
parse_reply text = not_hex (from_hex none (without_spaces (without_underscores text)))
