-- ===== src/Transport/Hex/Spelling.antt =====
-- Which texts `_parse_reply` takes, and for which bytes.
use spinev_ble.Base.{
  ℕ, ◌+◌, ◌*◌, ◌/◌, ◌%◌, ◌<◌, ◌≡◌, refl, sym, ap, ◌∙◌, ◌↔◌, inl, inr, Bool, true, false, not, ◌&&◌,
  ◌||◌, none, some, [], ◌∷◌, map, ltb, leb, ◌==◌, if◌then◌else◌, All, arith, Option-cases,
}
use spinev_ble.Errors.{
  Result, Result-cases, ok, err, spinev, builtin_value_error, struct_error, builtin_timeout_error,
  other_exception,
}
use spinev_ble.Models.{Bytes, Text}
use spinev_ble.Protocol.Frames.Value.{IsByte}
use spinev_ble.Protocol.Text.{is_space}
use spinev_ble.Protocol.Alarms.Index.{keep}
use spinev_ble.Transport.Hex.{
  hex_digit, hex, digit_value, is_ascii_space, from_hex, without_underscores, without_spaces,
  parse_reply, not_hex,
}

-- The letters A to F in lower case.
abbrev pub lower : ℕ → ℕ
lower c = if leb 65 c && leb c 70 then c + 32 else c

digit_value_inv : (c : ℕ) {v : ℕ} → digit_value c ≡ some v → (v < 16) × (lower c ≡ hex_digit v)
unfolding digit_value hex_digit
digit_value_inv c h = ground arith

digit_value-hex_digit : (c v : ℕ) → v < 16 → lower c ≡ hex_digit v → digit_value c ≡ some v
unfolding digit_value hex_digit
digit_value-hex_digit c v small h = ground arith

digit_not_space : (c v : ℕ) → digit_value c ≡ some v → is_ascii_space c ≡ false
unfolding digit_value
digit_not_space c v h = ground arith

-- No character that `bytes.fromhex` skips.
abbrev has_no_space : Text → Bool
has_no_space [] = true
has_no_space (c ∷ s) = not (is_ascii_space c) && has_no_space s

nothing_spelled : (s : Text) → map lower s ≡ [] → s ≡ []
nothing_spelled [] h = refl
nothing_spelled (c ∷ s) h = cc

from_hex_spelled :
    (s : Text) (bs : Bytes) → All IsByte bs → map lower s ≡ hex bs → from_hex none s ≡ ok bs
unfolding from_hex hex
from_hex_spelled s [] bytes h = rw (nothing_spelled s h) refl
from_hex_spelled [] (b ∷ bs) bytes h = cc
from_hex_spelled (c ∷ []) (b ∷ bs) bytes h = cc
from_hex_spelled (c ∷ d ∷ s) (b ∷ bs) bytes h =
    let high = digit_value-hex_digit c (b / 16) (omega arith) (cc) in
    let low = digit_value-hex_digit d (b % 16) (omega arith) (cc) in
    ground (arith, digit_not_space c (b / 16) high, from_hex_spelled s bs bytes.1 (cc))

-- What a text of two digits and more is read as.
first_byte :
    (c d : ℕ) (s : Text) (bs : Bytes)
    → is_ascii_space c ≡ false
    → from_hex none (c ∷ d ∷ s) ≡ ok bs
    → (h l : ℕ) × (rest : Bytes) × (digit_value c ≡ some h)
      × (digit_value d ≡ some l)
      × (from_hex none s ≡ ok rest)
      × (bs ≡ (h * 16 + l) ∷ rest)
unfolding from_hex
first_byte c d s bs clean e = elim (Option-cases (digit_value c)) [
  | inl p ↦ absurd (ground arith)
  | inr (h, p) ↦ elim (Option-cases (digit_value d)) [
    | inl q ↦ absurd (ground arith)
    | inr (l, q) ↦ elim (Result-cases (from_hex none s)) [
      | inl (rest, r) ↦ (h, l, rest, p, q, r, ground arith)
      | inr (x, r) ↦ absurd (ground arith)
    ]
  ]
]

byte_spelled :
    (h l : ℕ)
    → h < 16
    → l < 16
    → (h * 16 + l < 256) × ((h * 16 + l) / 16 ≡ h) × ((h * 16 + l) % 16 ≡ l)
byte_spelled h l p q = (omega arith, omega arith, omega arith)

from_hex_inv :
    (s : Text) (bs : Bytes)
    → has_no_space s ≡ true
    → from_hex none s ≡ ok bs
    → All IsByte bs × (map lower s ≡ hex bs)
unfolding hex
from_hex_inv [] [] clean h = (tt, refl)
from_hex_inv [] (b ∷ bs) clean h = absurd (unfold from_hex in ground arith)
from_hex_inv (c ∷ []) bs clean h = absurd (unfold from_hex in ground arith)
from_hex_inv (c ∷ d ∷ s) bs clean e =
    let (h, l, rest, p, q, r, b) = first_byte c d s bs (ground arith) e in
    let (ph, pl) = digit_value_inv c p in
    let (qh, ql) = digit_value_inv d q in
    let (bytes, spelled) = from_hex_inv s rest (ground arith) r in
    let (small, high, low) = byte_spelled h l ph qh in
    rw b ((small, bytes), rw (high, low, pl, ql, spelled) refl)

-- What `_parse_reply` reads of a text: no underscore and no white space.
abbrev pub digits_of : Text → Text
digits_of = keep (λ c. not (c == b'_' || is_space c))

cleaned : (s : Text) → without_spaces (without_underscores s) ≡ digits_of s
unfolding without_spaces without_underscores
cleaned [] = refl
cleaned (c ∷ s) = ground (arith, cleaned s)

ascii_space : (c : ℕ) → is_space c ≡ false → is_ascii_space c ≡ false
unfolding is_space
ascii_space c h = ground arith

digits_of_clean : (s : Text) → has_no_space (digits_of s) ≡ true
digits_of_clean [] = refl
digits_of_clean (c ∷ s) = ground (arith, ascii_space c, digits_of_clean s)

-- A reply's text is read as certain bytes exactly when its characters without underscores and
-- white space, in lower case, are the hexadecimal digits of these bytes, two for each.
pub parse_reply-ok :
    (text : Text) (bs : Bytes)
    → (parse_reply text ≡ ok bs) ↔ (All IsByte bs × (map lower (digits_of text) ≡ hex bs))
unfolding parse_reply
parse_reply-ok text bs = (
  λ e. from_hex_inv (digits_of text) bs (digits_of_clean text) (
      read_back (from_hex none (digits_of text))
        (ap (λ t. not_hex (from_hex none t)) (sym (cleaned text)) ∙ e)),
  λ (bytes, spelled).
      ap (λ t. not_hex (from_hex none t)) (cleaned text)
      ∙ ap not_hex (from_hex_spelled (digits_of text) bs bytes spelled),
)
  where
    read_back : (r : Result Bytes) → not_hex r ≡ ok bs → r ≡ ok bs
    read_back (ok b) h = h
    read_back (err builtin_value_error) h = cc
    read_back (err (spinev x)) h = cc
    read_back (err struct_error) h = cc
    read_back (err builtin_timeout_error) h = cc
    read_back (err other_exception) h = cc

-- The form in which the charger writes its replies: upper case digits, bytes joined by underscores.
abbrev upper_digit : ℕ → ℕ
upper_digit v = if ltb v 10 then 48 + v else 55 + v

unfoldable pub joined : Bytes → Text
joined [] = []
joined (b ∷ []) = upper_digit (b / 16) ∷ upper_digit (b % 16) ∷ []
joined (b ∷ bs) = upper_digit (b / 16) ∷ upper_digit (b % 16) ∷ b'_' ∷ joined bs

upper_digit_lem :
    (v : ℕ)
    → v < 16
    → (lower (upper_digit v) ≡ hex_digit v)
      × ((upper_digit v == b'_' || is_space (upper_digit v)) ≡ false)
unfolding hex_digit is_space
upper_digit_lem v h = (ground arith, ground arith)

joined_spelled : (bs : Bytes) → All IsByte bs → map lower (digits_of (joined bs)) ≡ hex bs
unfolding joined hex
joined_spelled [] h = refl
joined_spelled (b ∷ []) h =
    ground (arith, upper_digit_lem (b / 16) (omega arith), upper_digit_lem (b % 16) (omega arith))
joined_spelled (b ∷ c ∷ bs) h = ground (
  arith,
  upper_digit_lem (b / 16) (omega arith),
  upper_digit_lem (b % 16) (omega arith),
  joined_spelled (c ∷ bs) h.1,
)

-- Bytes that the charger writes in its form are read back.
pub parse_reply-joined : (bs : Bytes) → All IsByte bs → parse_reply (joined bs) ≡ ok bs
parse_reply-joined bs h = (parse_reply-ok (joined bs) bs).1 (h, joined_spelled bs h)
