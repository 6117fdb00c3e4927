-- ===== src/Cli/Number.antt =====
-- Whole numbers as text, for src/spinev_ble/__main__.py: Python's `int(value, 0)`, which
-- `_parse_password` calls, and the formats in which `_cmd_password` prints the password. `fold` is
-- what `int` takes a character beyond ASCII for: a space, a digit, or one that no number has.
pub mod Printed
use spinev_ble.Base.{
  ℕ, zero, suc, ◌+◌, ◌-◌, ◌*◌, ◌/◌, ◌%◌, Bool, true, false, ◌&&◌, ◌||◌, Option, none, some, List,
  [], ◌∷◌, ◌++◌, map, all, length, replicate, ltb, leb, ◌==◌, if◌then◌else◌,
}
use spinev_ble.Base.Int.{ℤ, pos, negsuc}
use spinev_ble.Errors.{Result, ok, err, builtin_value_error}
use spinev_ble.Models.{Text}
use spinev_ble.Transport.Hex.{digit_value, is_ascii_space}

abbrev below : ℕ → Option ℕ → Option ℕ
below base none = none
below base (some d) = if ltb d base then some d else none

-- The value of a digit of a base.
unfoldable pub digit_of : ℕ → ℕ → Option ℕ
unfolding digit_value
digit_of base c = below base (digit_value c)

-- The digits of a literal, to its end or to the white space behind it. `digit` says that the
-- character before was one: an underscore stands between two digits.
unfoldable pub read_digits : ℕ → ℕ → Bool → Text → Option ℕ
unfolding digit_of
read_digits base acc digit [] = if digit then some acc else none
read_digits base acc digit (c ∷ s) = elim (digit_of base c) [
  | some d ↦ read_digits base (acc * base + d) true s
  | none ↦ elim (c == b'_' && digit) [
    | true ↦ read_digits base acc false s
    | false ↦ if digit && all is_ascii_space (c ∷ s) then some acc else none
  ]
]

-- Behind the mark of a base, one underscore may come.
abbrev pub skip_mark : Text → Text
skip_mark [] = []
skip_mark (c ∷ s) = if c == b'_' then s else c ∷ s

-- Without the mark of a base, a number that begins with a zero is zero.
abbrev only_zero : Option ℕ → Option ℕ
only_zero (some zero) = some 0
only_zero _ = none

-- A literal behind its first digit, which is a zero.
unfoldable pub behind_zero : Text → Option ℕ
unfolding read_digits
behind_zero [] = some 0
behind_zero (c ∷ s) =
    if c == b'x' || c == b'X'
    then read_digits 16 0 false (skip_mark s)
    else if c == b'o' || c == b'O'
    then read_digits 8 0 false (skip_mark s)
    else if c == b'b' || c == b'B'
    then read_digits 2 0 false (skip_mark s)
    else only_zero (read_digits 10 0 true (c ∷ s))

unfoldable pub read_literal : Text → Option ℕ
unfolding behind_zero read_digits
read_literal [] = none
read_literal (c ∷ s) = if c == b'0' then behind_zero s else read_digits 10 0 false (c ∷ s)

abbrev negated : Option ℕ → Option ℤ
negated none = none
negated (some zero) = some (pos 0)
negated (some (suc n)) = some (negsuc n)

abbrev pub plain : Option ℕ → Option ℤ
plain none = none
plain (some n) = some (pos n)

unfoldable pub read_sign : Text → Option ℤ
unfolding read_literal
read_sign [] = none
read_sign (c ∷ s) =
    if c == b'-'
    then negated (read_literal s)
    else plain (if c == b'+' then read_literal s else read_literal (c ∷ s))

unfoldable pub skip_spaces : Text → Text
skip_spaces [] = []
skip_spaces (c ∷ s) = if is_ascii_space c then skip_spaces s else c ∷ s

abbrev pub or_value_error : Option ℤ → Result ℤ
or_value_error none = err builtin_value_error
or_value_error (some n) = ok n

module _ (fold : ℕ → ℕ) where
  abbrev pub folded : ℕ → ℕ
  folded c = if ltb c 128 then c else fold c

  -- `int(value, 0)`
  unfoldable pub int_literal : Text → Result ℤ
  unfolding read_sign skip_spaces
  int_literal s = or_value_error (read_sign (skip_spaces (map folded s)))

-- A digit, with capital letters above nine.
unfoldable pub capital_digit : ℕ → ℕ
capital_digit d = if ltb d 10 then 48 + d else 55 + d

-- The digits of a number before a text, with fuel for each digit.
unfoldable pub digits_before : ℕ → ℕ → ℕ → Text → Text
unfolding capital_digit
digits_before base zero n s = s
digits_before base (suc f) n s =
    let more = digits_before base f (n / base) (capital_digit (n % base) ∷ s) in
    if n / base == 0 then capital_digit (n % base) ∷ s else more

-- `str(n)`. A number has fewer digits than its value, but for zero.
unfoldable pub decimal : ℕ → Text
unfolding digits_before
decimal n = digits_before 10 (suc n) n []

-- `f"{n:06X}"`
unfoldable pub hex_six : ℕ → Text
unfolding digits_before
hex_six n =
    let digits = digits_before 16 (suc n) n [] in replicate (6 - length digits) b'0' ++ digits
