-- ===== src/Protocol/Alarms/Index.antt =====
-- `decode_alarm_defs` against the alarm table.
use Prim.Native.Nat.{bit_and}
use native.Mathlib.Nat.{one-le-pow}
use spinev_ble.Base.{
  ℕ, ◌/◌, ◌%◌, ◌^◌, ◌<◌, ◌≡◌, refl, ◌≢◌, ap, ◌∙◌, Bool, ◌&&◌, some, List, [], ◌∷◌, map, ◌==◌,
  if◌then◌else◌, arith, ◌⊎◌, inl, inr,
}
use spinev_ble.Base.Bits.{shl, bit_and-pow}
use spinev_ble.Base.Dict.{Dict, lookup, keys}
use spinev_ble.Errors.{ok, raise, protocol_error}
use spinev_ble.Models.{AlarmDef}
use spinev_ble.Protocol.Alarms.{
  has_bit, active_defs, item, alarm_defs_by_bank, sorted, check_bank, decode_alarm_defs,
  decode_alarms, build_alarm_read,
}
use spinev_ble.Protocol.Alarms.Table.{alarms}

-- Bit `b` of a word, by arithmetic.
abbrev pub bit_set : ℕ → ℕ → Bool
bit_set word b = (word / 2 ^ b) % 2 == 1

abbrev pub keep {ℓ} : {A : Type ℓ} → (A → Bool) → List A → List A
keep p [] = []
keep p (x ∷ xs) = if p x then x ∷ keep p xs else keep p xs

shl_one : (b : ℕ) → shl 1 b ≡ 2 ^ b
shl_one b = omega arith

-- The bit, in place, is zero or a power of two.
set_or_clear :
    (word b : ℕ)
    → ((word / 2 ^ b % 2 ≡ 0) × (shl (word / 2 ^ b % 2) b ≡ 0))
      ⊎ ((word / 2 ^ b % 2 ≡ 1) × (0 < shl (word / 2 ^ b % 2) b))
set_or_clear word b = grind (arith, one-le-pow b 2 (omega arith))

pub has_bit_lem : (word b : ℕ) → has_bit word b ≡ bit_set word b
unfolding has_bit
has_bit_lem word b =
    ground
      (arith, shl_one b, ap (bit_and word) (shl_one b), bit_and-pow b word, set_or_clear word b)

item_lem {ℓ} : {V : Type ℓ} (d : Dict V) (k : ℕ) {v : V} → lookup k d ≡ some v → item d k ≡ ok v
unfolding item
item_lem d k h = ground arith

-- The rows that a word reports, of a list of rows whose bits and entries are `bits` and `defs`.
active_defs-keep :
    (defs : Dict AlarmDef) (word : ℕ) (rows : List AlarmDef)
    → map (λ b. lookup b defs) (map (λ a. a.bit) rows) ≡ map some rows
    → active_defs defs word (map (λ a. a.bit) rows) ≡ ok (keep (λ a. bit_set word a.bit) rows)
unfolding active_defs
active_defs-keep defs word [] h = refl
active_defs-keep defs word (a ∷ rows) h = ground (
  arith,
  item_lem defs a.bit {v = a} (cc),
  has_bit_lem word a.bit,
  active_defs-keep defs word rows (cc),
)

keep-keep :
    (p q : AlarmDef → Bool) (rows : List AlarmDef)
    → keep q (keep p rows) ≡ keep (λ a. p a && q a) rows
keep-keep p q [] = refl
keep-keep p q (a ∷ rows) = ground (arith, keep-keep p q rows)

-- The rows of one bank, and the table that `_index_alarms` makes of them.
abbrev bank_rows : ℕ → List AlarmDef
bank_rows bank = keep (λ a. a.bank == bank) alarms

-- The index of a bank lists the bits of its rows in ascending order, each with its row.
abbrev IsIndexed : ℕ → Type 0
IsIndexed bank =
    (defs : Dict AlarmDef) × (item alarm_defs_by_bank bank ≡ ok defs)
    × (sorted (keys defs) ≡ map (λ a. a.bit) (bank_rows bank))
    × (map (λ b. lookup b defs) (map (λ a. a.bit) (bank_rows bank)) ≡ map some (bank_rows bank))

bank_one-IsIndexed : IsIndexed 1
unfolding alarm_defs_by_bank item sorted keys alarms lookup
bank_one-IsIndexed = (_, refl, refl, refl)

bank_two-IsIndexed : IsIndexed 2
unfolding alarm_defs_by_bank item sorted keys alarms lookup
bank_two-IsIndexed = (_, refl, refl, refl)

bank_one : check_bank 1 ≡ ok tt
unfolding check_bank
bank_one = refl

bank_two : check_bank 2 ≡ ok tt
unfolding check_bank
bank_two = refl

decode_bank :
    (word bank : ℕ)
    → check_bank bank ≡ ok tt
    → IsIndexed bank
    → decode_alarm_defs word bank ≡ ok (keep (λ a. (a.bank == bank) && bit_set word a.bit) alarms)
unfolding decode_alarm_defs
decode_bank word bank c (defs, e, bits, entries) =
    rw (c, e, bits)
      (active_defs-keep defs word (bank_rows bank) entries
        ∙ ap ok (keep-keep (λ a. a.bank == bank) (λ a. bit_set word a.bit) alarms))

-- For each of the two banks, decoding a word returns the rows of the alarm table that have this
-- bank and whose bit is set in the word, in the order of the table.
pub decode_alarm_defs-keep :
    (word bank : ℕ)
    → (bank ≡ 1) ⊎ (bank ≡ 2)
    → decode_alarm_defs word bank ≡ ok (keep (λ a. (a.bank == bank) && bit_set word a.bit) alarms)
decode_alarm_defs-keep word bank (inl e) = rw e (decode_bank word 1 bank_one bank_one-IsIndexed)
decode_alarm_defs-keep word bank (inr e) = rw e (decode_bank word 2 bank_two bank_two-IsIndexed)

-- A bank other than 1 and 2 is refused with a protocol error, by both decoders and by the builder
-- of the read.
bad_bank :
    (word bank : ℕ)
    → bank ≢ 1
    → bank ≢ 2
    → (decode_alarm_defs word bank ≡ raise protocol_error)
      × (decode_alarms word bank ≡ raise protocol_error)
      × (build_alarm_read bank ≡ raise protocol_error)
unfolding check_bank decode_alarm_defs decode_alarms build_alarm_read
bad_bank word bank a b = (ground arith, ground arith, ground arith)
