-- ===== src/Base/Bits.antt =====
-- `&`, `|`, `<<` and `>>` at variables: one digit at a time, then masks and disjoint fields.
use Prim.Native.Nat.{
  ℕ, zero, suc, ◌+◌, ◌-◌, ◌*◌, ◌/◌, ◌%◌, ◌^◌, ◌≤◌, ◌<◌, min, max, bit_and, bit_or, digits,
  bit_and-bitwise, bit_or-bitwise,
}
use mathlib.Core.Path.{◌≡◌, refl, ap}
use native.Mathlib.Omega.{arith}
use native.Mathlib.Nat.{pow-suc, pow-succ', one-le-pow, div-div-eq-div-mul, div-add-mod', mul_comm}

abbrev pub shl : ℕ → ℕ → ℕ
shl x k = x * 2 ^ k

abbrev pub shr : ℕ → ℕ → ℕ
shr x k = x / 2 ^ k

-- Any fuel that reaches the first operand gives the same digits.
module _ (f : ℕ → ℕ) (g : ℕ → ℕ → ℕ) where
  digits_fuel : (n m a b : ℕ) → a ≤ n → a ≤ m → digits f g n a b ≡ digits f g m a b
  digits_fuel zero zero zero b p q = refl
  digits_fuel zero (suc m) zero b p q = refl
  digits_fuel (suc n) zero zero b p q = refl
  digits_fuel (suc n) (suc m) zero b p q = refl
  digits_fuel zero m (suc a) b p q = absurd (omega arith)
  digits_fuel (suc n) zero (suc a) b p q = absurd (omega arith)
  digits_fuel (suc n) (suc m) (suc a) b p q =
      let rest = digits_fuel n m (suc a / 2) (b / 2) (omega arith) (omega arith) in
      ap (λ (r : ℕ). r * 2 + g (suc a % 2) (b % 2)) rest

zero-bit_and : (y : ℕ) → bit_and 0 y ≡ 0
zero-bit_and y = bit_and-bitwise 0 y

zero-bit_or : (y : ℕ) → bit_or 0 y ≡ y
zero-bit_or y = bit_or-bitwise 0 y

-- Half the first operand is fuel enough for half of it.
less_fuel :
    (f : ℕ → ℕ) (g : ℕ → ℕ → ℕ) (x y : ℕ)
    → digits f g x (suc x / 2) (y / 2) ≡ digits f g (suc x / 2) (suc x / 2) (y / 2)
less_fuel f g x y = digits_fuel f g x (suc x / 2) (suc x / 2) (y / 2) (omega arith) (omega arith)

pub bit_and_step : (x y : ℕ) → bit_and x y ≡ min (x % 2) (y % 2) + 2 * bit_and (x / 2) (y / 2)
bit_and_step zero y = omega (arith, zero-bit_and y, zero-bit_and (y / 2))
bit_and_step (suc x) y = omega (
  arith,
  less_fuel (λ _. zero) min x y,
  bit_and-bitwise (suc x / 2) (y / 2),
  bit_and-bitwise (suc x) y,
)

pub bit_or_step : (x y : ℕ) → bit_or x y ≡ max (x % 2) (y % 2) + 2 * bit_or (x / 2) (y / 2)
bit_or_step zero y = omega (arith, zero-bit_or y, zero-bit_or (y / 2))
bit_or_step (suc x) y = omega (
  arith,
  less_fuel (λ t. t) max x y,
  bit_or-bitwise (suc x / 2) (y / 2),
  bit_or-bitwise (suc x) y,
)

bit_and-zero : (n a : ℕ) → a ≤ n → bit_and a 0 ≡ 0
bit_and-zero n zero h = zero-bit_and 0
bit_and-zero zero (suc a) h = absurd (omega arith)
bit_and-zero (suc n) (suc a) h =
    omega (arith, bit_and_step (suc a) 0, bit_and-zero n (suc a / 2) (omega arith))

bit_or-zero : (n a : ℕ) → a ≤ n → bit_or a 0 ≡ a
bit_or-zero n zero h = zero-bit_or 0
bit_or-zero zero (suc a) h = absurd (omega arith)
bit_or-zero (suc n) (suc a) h =
    omega (arith, bit_or_step (suc a) 0, bit_or-zero n (suc a / 2) (omega arith))

-- `h << k | l` where `l` fits below the shift.
pub bit_or-shl : (k h l : ℕ) → l < 2 ^ k → bit_or (shl h k) l ≡ shl h k + l
bit_or-shl zero h zero p = omega (arith, bit_or-zero (shl h zero) (shl h zero) (omega arith))
bit_or-shl zero h (suc l) p = absurd (omega arith)
bit_or-shl (suc k) h l p = omega (
  arith,
  pow-suc 2 k,
  ap (λ (t : ℕ). h * t) (pow-suc 2 k),
  bit_or_step (shl h (suc k)) l,
  ap (λ (t : ℕ). bit_or t (l / 2)) (half h k),
  bit_or-shl k h (l / 2) (omega (arith, pow-suc 2 k)),
)
  where
    half : (h k : ℕ) → shl h (suc k) / 2 ≡ shl h k
    half h k = omega (arith, ap (λ (t : ℕ). h * t) (pow-suc 2 k))

low_digits : (x p : ℕ) → 0 < p → x % (p * 2) ≡ x / 2 % p * 2 + x % 2
low_digits x p h = omega (
  arith,
  div-add-mod' x (p * 2),
  div-add-mod' (x / 2) p,
  ap (λ (t : ℕ). t * (p * 2)) (ap (λ (t : ℕ). x / t) (mul_comm p 2)),
  ap (λ (t : ℕ). t * p) (div-div-eq-div-mul x 2 p),
)

-- `x & (2^k - 1)`.
pub bit_and-mask : (k x : ℕ) → bit_and x (2 ^ k - 1) ≡ x % 2 ^ k
bit_and-mask zero x = omega (arith, bit_and-zero x x (omega arith))
bit_and-mask (suc k) x = omega (
  arith,
  bit_and_step x (2 ^ suc k - 1),
  ap (λ (t : ℕ). bit_and (x / 2) t) (half k),
  bit_and-mask k (x / 2),
  low_digits x (2 ^ k) (one-le-pow k 2 (omega arith)),
  ap (λ (t : ℕ). x % t) (pow-suc 2 k),
  pow-suc 2 k,
  one-le-pow k 2 (omega arith),
)
  where
    half : (k : ℕ) → (2 ^ suc k - 1) / 2 ≡ 2 ^ k - 1
    half k = omega (arith, pow-suc 2 k, one-le-pow k 2 (omega arith))

-- `x & (1 << k)` is the bit, in place.
pub bit_and-pow : (k x : ℕ) → bit_and x (2 ^ k) ≡ shl (x / 2 ^ k % 2) k
bit_and-pow zero x = omega (arith, bit_and_step x 1, bit_and-zero (x / 2) (x / 2) (omega arith))
bit_and-pow (suc k) x = omega (
  arith,
  bit_and_step x (2 ^ suc k),
  ap (λ (t : ℕ). bit_and (x / 2) t) (half k),
  bit_and-pow k (x / 2),
  ap (λ (t : ℕ). x / t % 2 * t) (pow-succ' 2 k),
  ap (λ (t : ℕ). t % 2 * (2 * 2 ^ k)) (div-div-eq-div-mul x 2 (2 ^ k)),
  pow-suc 2 k,
)
  where
    half : (k : ℕ) → 2 ^ suc k / 2 ≡ 2 ^ k
    half k = omega (arith, pow-suc 2 k)
