-- ===== src/Protocol/Alarms.antt =====
-- Alarm words of src/spinev_ble/protocol.py: the table indexed by bank and bit, the alarms that a
-- word reports, and the frames that read a word.
pub mod Table
pub mod Index
use Prim.Native.Nat.{bit_and}
use Prim.Native.String.{String}
use mathlib.Core.List.{foldl}
use spinev_ble.Base.{
  ℕ, Bool, true, false, not, ◌||◌, Option, none, some, List, [], ◌∷◌, map, leb, ◌==◌, if◌then◌else◌,
}
use spinev_ble.Base.Bits.{shl}
use spinev_ble.Base.Dict.{Dict, lookup, insert, keys}
use spinev_ble.Errors.{Result, ok, err, ◌>>=◌, ◌>>◌, require, protocol_error, other_exception}
use spinev_ble.Const.{alarm_bank2_flag, alarm_banks}
use spinev_ble.Const.Registers.{Register, register_value, operation_value, read}
use spinev_ble.Models.{Bytes, AlarmDef}
use spinev_ble.Protocol.Frames.{build_read}
use spinev_ble.Protocol.Alarms.Table.{alarms}

-- `d.get(bank, {})`
abbrev bank_defs : Option (Dict AlarmDef) → Dict AlarmDef
bank_defs none = []
bank_defs (some defs) = defs

-- `index.setdefault(alarm.bank, {})[alarm.bit] = alarm`
unfoldable pub index_alarm : Dict (Dict AlarmDef) → AlarmDef → Dict (Dict AlarmDef)
unfolding insert lookup
index_alarm index alarm =
    insert alarm.bank (insert alarm.bit alarm (bank_defs (lookup alarm.bank index))) index

-- `_index_alarms`, the value of `_ALARM_DEFS_BY_BANK`.
unfoldable pub alarm_defs_by_bank : Dict (Dict AlarmDef)
unfolding index_alarm alarms
alarm_defs_by_bank = foldl index_alarm [] alarms

-- `sorted` on numbers.
unfoldable pub insert_sorted : ℕ → List ℕ → List ℕ
insert_sorted x [] = x ∷ []
insert_sorted x (y ∷ ys) = if leb x y then x ∷ y ∷ ys else y ∷ insert_sorted x ys

unfoldable pub sorted : List ℕ → List ℕ
unfolding insert_sorted
sorted [] = []
sorted (x ∷ xs) = insert_sorted x (sorted xs)

-- `d[key]`, which raises KeyError.
unfoldable pub item {ℓ} : {V : Type ℓ} → Dict V → ℕ → Result V
unfolding lookup
item d k = elim (lookup k d) [ none ↦ err other_exception | some v ↦ ok v ]

abbrev pub member : ℕ → List ℕ → Bool
member x [] = false
member x (y ∷ ys) = x == y || member x ys

unfoldable pub check_bank : ℕ → Result (Unit {0})
check_bank bank = require (member bank alarm_banks) protocol_error

-- `word & (1 << bit)`, as a condition.
unfoldable pub has_bit : ℕ → ℕ → Bool
has_bit word bit = not (bit_and word (shl 1 bit) == 0)

-- The comprehension of `decode_alarm_defs` over the sorted bits.
unfoldable pub active_defs : Dict AlarmDef → ℕ → List ℕ → Result (List AlarmDef)
unfolding item has_bit
active_defs defs word [] = ok []
active_defs defs word (bit ∷ bits) =
    let rest = active_defs defs word bits in
    let with_bit = item defs bit >>= λ a. rest >>= λ found. ok (a ∷ found) in
    if has_bit word bit then with_bit else rest

unfoldable pub decode_alarm_defs : ℕ → ℕ → Result (List AlarmDef)
decode_alarm_defs word bank = do
  check_bank bank
  defs ← item alarm_defs_by_bank bank
  active_defs defs word (sorted (keys defs))

unfoldable pub decode_alarms : ℕ → ℕ → Result (List String)
decode_alarms word bank = do defs ← decode_alarm_defs word bank; ok (map (λ a. a.name) defs)

unfoldable pub build_alarm_read : ℕ → Result Bytes
unfolding check_bank
build_alarm_read bank = do
  check_bank bank
  if bank == 1
      then build_read (register_value Register.alarms) 0 (operation_value read)
      else build_read (register_value Register.alarms) 0 alarm_bank2_flag
