-- ===== src/Cli/Number/Printed.antt =====
-- A printed number read back.
use spinev_ble.Base.{
  ℕ, zero, suc, ◌+◌, ◌*◌, ◌/◌, ◌%◌, ◌<◌, ◌≤◌, ◌≡◌, refl, sym, ap, ◌∙◌, Bool, true, false, some,
  none, [], ◌∷◌, ◌++◌, map, replicate, length, ◌==◌, ==_iff, ◌-◌, arith, Bool-cases, inl, inr,
}
use spinev_ble.Base.Int.{pos}
use spinev_ble.Errors.{ok}
use spinev_ble.Models.{Text}
use spinev_ble.Transport.Hex.{digit_value, is_ascii_space}
use spinev_ble.Cli.Number.{
  digit_of, read_digits, behind_zero, read_literal, read_sign, skip_spaces, folded, int_literal,
  capital_digit, digits_before, decimal, hex_six, skip_mark, plain, or_value_error,
}

digit_of-capital_digit :
    (base d : ℕ) → d < base → base ≤ 16 → digit_of base (capital_digit d) ≡ some d
unfolding digit_of capital_digit digit_value
digit_of-capital_digit base d h k = ground arith

read_digit :
    (base acc d : ℕ) (digit : Bool) (s : Text)
    → d < base
    → base ≤ 16
    → read_digits base acc digit (capital_digit d ∷ s) ≡ read_digits base (acc * base + d) true s
unfolding read_digits
read_digit base acc d digit s h k = rw (read_digits, digit_of-capital_digit base d h k) refl

folded-capital_digit :
    (fold : ℕ → ℕ) (d : ℕ) → d < 16 → folded fold (capital_digit d) ≡ capital_digit d
unfolding capital_digit
folded-capital_digit fold d h = ground arith

capital_above : (d : ℕ) → 0 < d → d < 16 → 48 < capital_digit d
unfolding capital_digit
capital_above d h k = ground arith

-- A base with its division.
module _ (base : ℕ) (small : base ≤ 16) (split : (n : ℕ) → n / base * base + n % base ≡ n)
    (digit_small : (n : ℕ) → n % base < base)
    (shrinks : (n : ℕ) → 0 < n / base → n / base < n) where
  one_digit : (n : ℕ) → n / base == 0 ≡ true → 0 * base + n % base ≡ n
  one_digit n e = ap (λ q. q * base + n % base) (sym ((==_iff (n / base) 0).0 e)) ∙ split n

  fuel : (f n : ℕ) → n < suc f → n / base == 0 ≡ false → n / base < f
  fuel f n h e = let less = shrinks n (ground (arith, e)) in omega (arith, less)

  digit_above : (n : ℕ) → 0 < n → n / base == 0 ≡ true → 0 < n % base
  digit_above n h e = let whole = one_digit n e in omega (arith, whole)

  read_digits-digits_before :
      (f n : ℕ) (digit : Bool) (s : Text)
      → n < f
      → read_digits base 0 digit (digits_before base f n s) ≡ read_digits base n true s
  unfolding digits_before
  read_digits-digits_before zero n digit s h = absurd (omega arith)
  read_digits-digits_before (suc f) n digit s h = elim (Bool-cases (n / base == 0)) [
    | inl e ↦ rw e (
        read_digit base 0 (n % base) digit s (digit_small n) small
        ∙ ap (λ m. read_digits base m true s) (one_digit n e))
    | inr e ↦ rw e (
        read_digits-digits_before f (n / base) digit (capital_digit (n % base) ∷ s) (fuel f n h e)
        ∙ read_digit base (n / base) (n % base) true s (digit_small n) small
        ∙ ap (λ m. read_digits base m true s) (split n))
  ]

  -- All characters of a number are of ASCII.
  map-digits_before :
      (fold : ℕ → ℕ) (f n : ℕ) (s : Text)
      → map (folded fold) (digits_before base f n s) ≡ digits_before base f n (map (folded fold) s)
  unfolding digits_before
  map-digits_before fold zero n s = refl
  map-digits_before fold (suc f) n s = elim (Bool-cases (n / base == 0)) [
    | inl e ↦ rw e (ap (λ c. c ∷ map (folded fold) s) ascii)
    | inr e ↦ rw e (
        map-digits_before fold f (n / base) (capital_digit (n % base) ∷ s)
        ∙ ap (λ c. digits_before base f (n / base) (c ∷ map (folded fold) s)) ascii)
  ]
    where
      ascii : folded fold (capital_digit (n % base)) ≡ capital_digit (n % base)
      ascii = folded-capital_digit fold (n % base) (let less = digit_small n in omega (arith, less))

  -- A number above zero does not begin with a zero.
  digits_before_first :
      (f n : ℕ) (s : Text)
      → n < f
      → 0 < n
      → (c : ℕ) × (t : Text) × (digits_before base f n s ≡ c ∷ t) × (48 < c)
  unfolding digits_before
  digits_before_first zero n s h k = absurd (omega arith)
  digits_before_first (suc f) n s h k = elim (Bool-cases (n / base == 0)) [
    | inl e ↦ (
      capital_digit (n % base),
      s,
      rw e refl,
      capital_above (n % base) (digit_above n k e)
          (let less = digit_small n in omega (arith, less)),
    )
    | inr e ↦
        let (c, t, q, above) =
          digits_before_first f (n / base) (capital_digit (n % base) ∷ s) (fuel f n h e)
            (ground (arith, e)) in
        (c, t, rw e q, above)
  ]

-- Base ten and base sixteen.
module _ (f n : ℕ) (digit : Bool) (h : n < f) where
  read_decimal :
      (s : Text) → read_digits 10 0 digit (digits_before 10 f n s) ≡ read_digits 10 n true s
  read_decimal s =
      read_digits-digits_before 10 (omega arith) (λ n. omega arith) (λ n. omega arith)
        (λ n h. omega arith) f n digit s h

  read_hex : (s : Text) → read_digits 16 0 digit (digits_before 16 f n s) ≡ read_digits 16 n true s
  read_hex s =
      read_digits-digits_before 16 (omega arith) (λ n. omega arith) (λ n. omega arith)
        (λ n h. omega arith) f n digit s h

-- Zeros in front change nothing.
read_zeros :
    (k : ℕ) (digit : Bool) (s : Text) (n : ℕ)
    → ((d : Bool) → read_digits 16 0 d s ≡ some n)
    → read_digits 16 0 digit (replicate k b'0' ++ s) ≡ some n
unfolding capital_digit
read_zeros zero digit s n h = h digit
read_zeros (suc k) digit s n h =
    read_digit 16 0 0 digit (replicate k b'0' ++ s) (omega arith) (omega arith)
    ∙ read_zeros k true s n h

pub decimal_first : (n : ℕ) → 0 < n → (c : ℕ) × (t : Text) × (decimal n ≡ c ∷ t) × (48 < c)
unfolding decimal
decimal_first n h =
    digits_before_first 10 (omega arith) (λ n. omega arith) (λ n. omega arith) (λ n h. omega arith)
      (suc n) n [] (omega arith) h

-- A text that begins with a decimal digit above zero is a literal of base ten.
begins_above :
    (c : ℕ) (t : Text) (n : ℕ)
    → 48 < c
    → read_digits 10 0 false (c ∷ t) ≡ some n
    → read_sign (skip_spaces (c ∷ t)) ≡ some (pos n)
unfolding read_sign skip_spaces read_literal
begins_above c t n h e = rw (not_space, not_minus, not_plus, not_zero, e) refl
  where
    not_space : is_ascii_space c ≡ false
    not_space = ground arith

    not_minus : c == b'-' ≡ false
    not_minus = ground arith

    not_plus : c == b'+' ≡ false
    not_plus = ground arith

    not_zero : c == b'0' ≡ false
    not_zero = ground arith

ascii_replicate :
    (fold : ℕ → ℕ) (k : ℕ) (s : Text)
    → map (folded fold) (replicate k b'0' ++ s) ≡ replicate k b'0' ++ map (folded fold) s
ascii_replicate fold zero s = refl
ascii_replicate fold (suc k) s = ap (λ (r : Text). b'0' ∷ r) (ascii_replicate fold k s)

-- "0x"
abbrev pub hex_mark : Text
hex_mark = b'0' ∷ b'x' ∷ []

module _ (fold : ℕ → ℕ) where
  map-decimal : (n : ℕ) → map (folded fold) (decimal n) ≡ decimal n
  unfolding decimal
  map-decimal n =
      map-digits_before 10 (omega arith) (λ n. omega arith) (λ n. omega arith) (λ n h. omega arith)
        fold (suc n) n []

  map-hex_six : (n : ℕ) → map (folded fold) (hex_six n) ≡ hex_six n
  unfolding hex_six
  map-hex_six n =
      ascii_replicate fold (6 - length (digits_before 16 (suc n) n []))
        (digits_before 16 (suc n) n [])
      ∙ ap (λ (s : Text). replicate (6 - length (digits_before 16 (suc n) n [])) b'0' ++ s)
          (map-digits_before 16 (omega arith) (λ n. omega arith) (λ n. omega arith)
            (λ n h. omega arith) fold (suc n) n [])

  read_hex_six : (n : ℕ) (digit : Bool) → read_digits 16 0 digit (hex_six n) ≡ some n
  unfolding hex_six read_digits
  read_hex_six n digit =
      read_zeros (6 - length (digits_before 16 (suc n) n [])) digit (digits_before 16 (suc n) n [])
        n (λ d. read_hex (suc n) n d (omega arith) [] ∙ refl)

  decimal_literal : (n : ℕ) → read_sign (skip_spaces (decimal n)) ≡ some (pos n)
  unfolding read_sign skip_spaces read_literal decimal
  decimal_literal zero = refl
  decimal_literal (suc n) =
      let (c, t, e, above) = decimal_first (suc n) (omega arith) in
      ap (λ s. read_sign (skip_spaces s)) e
      ∙ begins_above c t (suc n) above (
          ap (read_digits 10 0 false) (sym e)
          ∙ read_decimal (suc (suc n)) (suc n) false (omega arith) [])

  pub int_literal-decimal : (n : ℕ) → int_literal fold (decimal n) ≡ ok (pos n)
  unfolding int_literal
  int_literal-decimal n = rw (map-decimal n, decimal_literal n) refl

  -- A number does not begin with an underscore.
  unmarked : (s : Text) (n : ℕ) → read_digits 16 0 false s ≡ some n → skip_mark s ≡ s
  unfolding read_digits digit_of digit_value
  unmarked [] n h = refl
  unmarked (c ∷ s) n h = elim (Bool-cases (c == b'_')) [
    | inl e ↦
        absurd
          (no_number (sym (ap (λ x. read_digits 16 0 false (x ∷ s)) ((==_iff c b'_').0 e)) ∙ h))
    | inr e ↦ rw e refl
  ]
    where
      no_number : ¬ (none ≡ some n)
      no_number h = cc

  hex_literal : (n : ℕ) → read_sign (skip_spaces (hex_mark ++ hex_six n)) ≡ some (pos n)
  unfolding read_sign skip_spaces read_literal behind_zero
  hex_literal n = ap plain (
      ap (read_digits 16 0 false) (unmarked (hex_six n) n (read_hex_six n false))
      ∙ read_hex_six n false)

  pub int_literal-hex_six : (n : ℕ) → int_literal fold (hex_mark ++ hex_six n) ≡ ok (pos n)
  unfolding int_literal
  int_literal-hex_six n =
      ap (λ s. or_value_error (read_sign (skip_spaces (hex_mark ++ s)))) (map-hex_six n)
      ∙ ap or_value_error (hex_literal n)
