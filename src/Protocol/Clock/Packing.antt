-- ===== src/Protocol/Clock/Packing.antt =====
-- The clock frames byte by byte, and what is out of range.
use Prim.Native.Nat.{bit_or}
use spinev_ble.Base.{
  ℕ, ◌+◌, ◌-◌, ◌*◌, ◌≤◌, ◌<◌, ◌≡◌, refl, ap, Bool, true, ◌&&◌, [], ◌∷◌, arith, Bool-cases, &&-true,
  inl, inr, suc,
}
use spinev_ble.Base.Int.{ℤ, pos, negsuc}
use spinev_ble.Base.Bits.{shl, bit_or-shl}
use spinev_ble.Errors.{ok, raise, protocol_error}
use spinev_ble.Const.Registers.{register_value, clock_time, clock_date, timezone}
use spinev_ble.Protocol.Frames.Value.{build_write_uint_lem}
use spinev_ble.Protocol.Clock.{
  in_range, between, build_clock_time, build_clock_date, build_timezone,
}

-- Three fields of eight bits in one word.
three_fields :
    (a b c : ℕ)
    → a < 256
    → b < 256
    → c < 256
    → bit_or (bit_or (shl a 16) (shl b 8)) c ≡ a * 65536 + b * 256 + c
three_fields a b c ha hb hc = omega (
  arith,
  bit_or-shl 16 a (shl b 8) (omega arith),
  ap (λ (t : ℕ). bit_or t c) (regroup a b hb),
  bit_or-shl 8 (a * 256 + b) c hc,
)
  where
    regroup : (a b : ℕ) → b < 256 → bit_or (shl a 16) (shl b 8) ≡ shl (a * 256 + b) 8
    regroup a b hb = omega (arith, bit_or-shl 16 a (shl b 8) (omega arith))

-- A time in range is written as the bytes `00 SS MM HH` to the clock register.
pub build_clock_time_lem :
    (h m s : ℕ)
    → h < 24
    → m < 60
    → s < 60
    → build_clock_time (pos h) (pos m) (pos s)
      ≡ ok (0x10 ∷ 0xAC ∷ register_value clock_time ∷ 1 ∷ 0 ∷ s ∷ m ∷ h ∷ [])
unfolding build_clock_time
build_clock_time_lem h m s hh hm hs =
    ground (arith, three_fields s m h, build_write_uint_lem 0x3F (s * 65536 + m * 256 + h))

-- A date in range is written as `00 DD MM YY`, the month from 0 and the year from 1900.
pub build_clock_date_lem :
    (y m d : ℕ)
    → 1900 ≤ y
    → y ≤ 2155
    → 1 ≤ m
    → m ≤ 12
    → 1 ≤ d
    → d ≤ 31
    → build_clock_date (pos y) (pos m) (pos d)
      ≡ ok (0x10 ∷ 0xAC ∷ register_value clock_date ∷ 1 ∷ 0 ∷ d ∷ (m - 1) ∷ (y - 1900) ∷ [])
unfolding build_clock_date
build_clock_date_lem y m d y1 y2 m1 m2 d1 d2 = ground (
  arith,
  three_fields d (m - 1) (y - 1900),
  build_write_uint_lem 0x40 (d * 65536 + (m - 1) * 256 + (y - 1900)),
)

-- An offset in range is written as `00 00 HH MM`.
pub build_timezone_lem :
    (h m : ℕ)
    → h < 24
    → m < 60
    → build_timezone (pos h) (pos m)
      ≡ ok (0x10 ∷ 0xAC ∷ register_value timezone ∷ 1 ∷ 0 ∷ 0 ∷ h ∷ m ∷ [])
unfolding build_timezone
build_timezone_lem h m hh hm =
    ground (arith, bit_or-shl 8 h m, build_write_uint_lem 0x78 (h * 256 + m))

-- `x` is one of the numbers `lo` to `hi`.
abbrev pub IsBetween : ℕ → ℤ → ℕ → Type 0
IsBetween lo x hi = (n : ℕ) × (x ≡ pos n) × (lo ≤ n) × (n ≤ hi)

pub between→IsBetween : (lo : ℕ) (x : ℤ) (hi : ℕ) → between lo x hi ≡ true → IsBetween lo x hi
between→IsBetween lo (pos n) hi h = (n, refl, ground arith, ground arith)
between→IsBetween lo (negsuc n) hi h = absurd (ground arith)

pub in_range→IsBetween : (x : ℤ) (n : ℕ) → in_range x (suc n) ≡ true → IsBetween 0 x n
in_range→IsBetween (pos k) n h = (k, refl, ground arith, ground arith)
in_range→IsBetween (negsuc k) n h = absurd (ground arith)

module _ (x y z : Bool) where
  all_true : (x && y && z) ≡ true → (x ≡ true) × (y ≡ true) × (z ≡ true)
  all_true h = ground arith

-- A time with a component out of range, a negative one included, is a protocol error.
pub build_clock_time_refuses :
    (h m s : ℤ)
    → ¬ (IsBetween 0 h 23 × IsBetween 0 m 59 × IsBetween 0 s 59)
    → build_clock_time h m s ≡ raise protocol_error
unfolding build_clock_time
build_clock_time_refuses h m s out =
    elim (Bool-cases (in_range h 24 && in_range m 60 && in_range s 60)) [
      | inl e ↦
          let (a, b, c) = all_true (in_range h 24) (in_range m 60) (in_range s 60) e in
          absurd
            (out (in_range→IsBetween h 23 a, in_range→IsBetween m 59 b, in_range→IsBetween s 59 c))
      | inr e ↦ rw e
    ]

-- A date with a component out of range is a protocol error.
pub build_clock_date_refuses :
    (y m d : ℤ)
    → ¬ (IsBetween 1900 y 2155 × IsBetween 1 m 12 × IsBetween 1 d 31)
    → build_clock_date y m d ≡ raise protocol_error
unfolding build_clock_date
build_clock_date_refuses y m d out =
    elim (Bool-cases (between 1900 y 2155 && between 1 m 12 && between 1 d 31)) [
      | inl e ↦
          let (a, b, c) = all_true (between 1900 y 2155) (between 1 m 12) (between 1 d 31) e in
          absurd (
            out (
              between→IsBetween 1900 y 2155 a,
              between→IsBetween 1 m 12 b,
              between→IsBetween 1 d 31 c,
            ))
      | inr e ↦ rw e
    ]

-- An offset with a component out of range is a protocol error.
pub build_timezone_refuses :
    (h m : ℤ) → ¬ (IsBetween 0 h 23 × IsBetween 0 m 59) → build_timezone h m ≡ raise protocol_error
unfolding build_timezone
build_timezone_refuses h m out = elim (Bool-cases (in_range h 24 && in_range m 60)) [
  | inl e ↦
      let (a, b) = &&-true (in_range h 24) (in_range m 60) e in
      absurd (out (in_range→IsBetween h 23 a, in_range→IsBetween m 59 b))
  | inr e ↦ rw e
]
