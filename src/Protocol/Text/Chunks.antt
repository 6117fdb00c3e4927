-- ===== src/Protocol/Text/Chunks.antt =====
-- The frames of a text write: how many, how they are numbered, and what they carry together.
use spinev_ble.Base.{
  ℕ, zero, suc, ◌+◌, ◌-◌, ◌*◌, ◌/◌, ◌%◌, ◌≤◌, ◌<◌, ◌≡◌, refl, ap, ◌∙◌, sym, true, List, [], ◌∷◌,
  ◌++◌, length, take, drop, replicate, all, ltb, length-append, length-replicate, length-take,
  length-drop, drop-drop, take-add, take-length, arith,
}
use spinev_ble.Errors.{ok}
use native.Mathlib.Numerals.{add-one}
use spinev_ble.Protocol.Frames.{bytes_of}
use spinev_ble.Models.{Bytes, Text}
use spinev_ble.Protocol.Text.{string_frames, build_string_write, ljust, encode_ascii}

-- Frames of eight bytes for one register, numbered from `seq` on.
abbrev pub IsNumbered : ℕ → ℕ → List Bytes → Type 0
IsNumbered register seq [] = Unit
IsNumbered register seq (f ∷ fs) =
    (take 4 f ≡ 0x10 ∷ 0xAC ∷ register ∷ seq ∷ [])
    × (length f ≡ 8)
    × IsNumbered register (suc seq) fs

-- What a list of frames carries behind its headers.
unfoldable pub carried : List Bytes → Bytes
carried [] = []
carried (f ∷ fs) = drop 4 f ++ carried fs

bytes_of_pair : (a b : ℕ) → a < 256 → b < 256 → bytes_of (a ∷ b ∷ []) ≡ ok (a ∷ b ∷ [])
unfolding bytes_of
bytes_of_pair a b p q = ground arith

carried_step :
    (n i : ℕ) (payload : Bytes)
    → take 4 (drop (4 * i) payload) ++ take (4 * n) (drop (4 * (i + 1)) payload)
      ≡ take (4 * suc n) (drop (4 * i) payload)
carried_step n i payload =
    ap (λ (k : ℕ). take 4 (drop (4 * i) payload) ++ take (4 * n) (drop k payload)) (shift i)
    ∙ ap (λ (r : Bytes). take 4 (drop (4 * i) payload) ++ take (4 * n) r)
        (sym (drop-drop 4 (4 * i) payload))
    ∙ sym (take-add 4 (4 * n) (drop (4 * i) payload))
    ∙ ap (λ (k : ℕ). take k (drop (4 * i) payload)) (four n)
  where
    shift : (i : ℕ) → 4 * (i + 1) ≡ 4 * i + 4
    shift i = omega arith

    four : (n : ℕ) → 4 + 4 * n ≡ 4 * suc n
    four n = omega arith

string_frames_lem :
    (n i register : ℕ) (payload : Bytes)
    → register < 256
    → i + n < 256
    → 4 * (i + n) ≤ length payload
    → (fs : List Bytes) × (string_frames register payload i n ≡ ok fs)
      × (length fs ≡ n)
      × IsNumbered register (i + 1) fs
      × (carried fs ≡ take (4 * n) (drop (4 * i) payload))
unfolding string_frames carried
string_frames_lem zero i register payload r small room = ([], refl, refl, tt, refl)
string_frames_lem (suc n) i register payload r small room =
    let (fs, e, count, numbered, carries) =
      string_frames_lem n (i + 1) register payload r (omega arith) (omega arith) in
    (
      (0x10 ∷ 0xAC ∷ register ∷ (i + 1) ∷ take 4 (drop (4 * i) payload)) ∷ fs,
      rw (bytes_of_pair register (i + 1) r (omega arith), e),
      omega (arith, count),
      (
        refl,
        omega (arith, length-take 4 (drop (4 * i) payload), length-drop (4 * i) payload),
        rw add-one at numbered,
      ),
      rw carries (carried_step n i payload),
    )

length-ljust : (bs : Bytes) (width : ℕ) → length bs ≤ width → length (ljust bs width) ≡ width
unfolding ljust
length-ljust bs width h = omega (
  arith,
  length-append bs (replicate (width - length bs) 0),
  length-replicate {A = ℕ} (width - length bs) 0,
)

whole_field :
    (bs : Bytes) (width : ℕ)
    → length bs ≡ width
    → width % 4 ≡ 0
    → take (4 * (width / 4)) (drop (4 * 0) bs) ≡ bs
whole_field bs width h m =
    ap (λ (k : ℕ). take k bs) {x = 4 * (width / 4)} {y = length bs} (omega arith) ∙ take-length bs

-- An ASCII text that fits is written to a register by one frame for each four bytes of the field:
-- frames of eight bytes, numbered from 1, that together carry the text and then zeros up to the
-- field's width. The field must be a positive multiple of four below 1024.
pub build_string_write_lem :
    (register : ℕ) (value : Text) (field_bytes : ℕ)
    → register < 256
    → all (λ c. ltb c 128) value ≡ true
    → length value ≤ field_bytes
    → 0 < field_bytes
    → field_bytes % 4 ≡ 0
    → field_bytes < 1024
    → (fs : List Bytes) × (build_string_write register value field_bytes ≡ ok fs)
      × (length fs ≡ field_bytes / 4)
      × IsNumbered register 1 fs
      × (carried fs ≡ value ++ replicate (field_bytes - length value) 0)
unfolding build_string_write encode_ascii ljust
build_string_write_lem register value field_bytes r ascii fits some_ whole few =
    let padded = ljust value field_bytes in
    let wide = length-ljust value field_bytes fits in
    let (fs, e, count, numbered, carries) =
      string_frames_lem (field_bytes / 4) 0 register padded r (omega arith) (omega arith) in
    (fs, ground arith, count, numbered, carries ∙ whole_field padded field_bytes wide whole)
