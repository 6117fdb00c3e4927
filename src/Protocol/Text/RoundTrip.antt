-- ===== src/Protocol/Text/RoundTrip.antt =====
-- Text settings, written in frames and decoded.
use spinev_ble.Base.{
  ℕ, zero, suc, ◌-◌, ◌%◌, ◌≤◌, ◌<◌, ◌≡◌, refl, Bool, true, false, List, [], ◌∷◌, ◌++◌, length,
  replicate, all, ltb, arith, ◌&&◌, ◌⊎◌,
}
use spinev_ble.Errors.{ok, raise, protocol_error}
use spinev_ble.Models.{Bytes, Text}
use spinev_ble.Protocol.Text.{
  build_string_write, before_nul, decode_ascii, decode_string, strip, encode_ascii,
}
use spinev_ble.Protocol.Text.Chunks.{carried, build_string_write_lem}

-- Every character is ASCII and none is NUL.
abbrev pub is_plain : Text → Bool
is_plain = all (λ c. ltb c 128 && ltb 0 c)

before_nul-padding : (s : Text) (n : ℕ) → is_plain s ≡ true → before_nul (s ++ replicate n 0) ≡ s
unfolding before_nul
before_nul-padding [] zero h = refl
before_nul-padding [] (suc n) h = refl
before_nul-padding (c ∷ s) n h = ground (arith, before_nul-padding s n)

decode_ascii_lem : (s : Text) → is_plain s ≡ true → decode_ascii s ≡ s
unfolding decode_ascii
decode_ascii_lem [] h = refl
decode_ascii_lem (c ∷ s) h = ground (arith, decode_ascii_lem s)

is_plain-ascii : (s : Text) → is_plain s ≡ true → all (λ c. ltb c 128) s ≡ true
is_plain-ascii [] h = refl
is_plain-ascii (c ∷ s) h = ground (arith, is_plain-ascii s)

-- A text of plain characters that fits its field is written by frames whose payloads, put
-- together as the register's content, decode to the text without the white space around it.
pub decode_string-build_string_write :
    (register : ℕ) (value : Text) (field_bytes : ℕ)
    → register < 256
    → is_plain value ≡ true
    → length value ≤ field_bytes
    → 0 < field_bytes
    → field_bytes % 4 ≡ 0
    → field_bytes < 1024
    → (fs : List Bytes) × (build_string_write register value field_bytes ≡ ok fs)
      × (decode_string (carried fs) ≡ strip value)
unfolding decode_string
decode_string-build_string_write register value field_bytes r plain fits some_ whole few =
    let (fs, e, count, numbered, carries) =
      build_string_write_lem register value field_bytes r (is_plain-ascii value plain) fits some_
        whole few in
    (
      fs,
      e,
      rw (
        carries,
        before_nul-padding value (field_bytes - length value) plain,
        decode_ascii_lem value plain,
      ),
    )

-- Nothing is built, and the error is a protocol error, where the width is not a positive multiple
-- of four, where the text is longer than the field, and where it is not ASCII.
build_string_write_refuses :
    (register : ℕ) (value : Text) (field_bytes : ℕ)
    → ((field_bytes ≡ 0)
        ⊎ (0 < field_bytes % 4)
        ⊎ (field_bytes < length value)
        ⊎ (all (λ c. ltb c 128) value ≡ false))
    → build_string_write register value field_bytes ≡ raise protocol_error
unfolding build_string_write encode_ascii
build_string_write_refuses register value field_bytes h = ground arith
