-- ===== src/Protocol/Frames/Value.antt =====
-- The four value bytes, packed and unpacked, and the frames of the builders.
use spinev_ble.Base.{ℕ, ◌/◌, ◌%◌, ◌^◌, ◌<◌, ◌≡◌, [], ◌∷◌, length, All, arith}
use spinev_ble.Errors.{ok}
use spinev_ble.Models.{Bytes}
use spinev_ble.Protocol.Frames.{pack_uint, decode_uint, build_read, build_write_uint}

abbrev pub IsByte : ℕ → Type 0
IsByte b = b < 256

-- The big endian bytes of a 32 bit value.
abbrev pub be_bytes : ℕ → Bytes
be_bytes v = v / 2 ^ 24 ∷ v / 2 ^ 16 % 256 ∷ v / 2 ^ 8 % 256 ∷ v % 256 ∷ []

pub pack_uint_lem : (v : ℕ) → v < 2 ^ 32 → pack_uint v ≡ ok (be_bytes v)
unfolding pack_uint
pack_uint_lem v h = ground arith

pub decode_uint-be_bytes : (v : ℕ) → v < 2 ^ 32 → decode_uint (be_bytes v) ≡ ok v
unfolding decode_uint
decode_uint-be_bytes v h = ground arith

-- `struct.pack` succeeds on 32 bits alone.
pub pack_uint_inv : (v : ℕ) {bs : Bytes} → pack_uint v ≡ ok bs → (v < 2 ^ 32) × (bs ≡ be_bytes v)
unfolding pack_uint
pack_uint_inv v h = ground arith

-- Every value that packs is read back, and its four elements are bytes.
decode_uint-pack_uint :
    (v : ℕ) {bs : Bytes}
    → pack_uint v ≡ ok bs
    → (decode_uint bs ≡ ok v) × All IsByte bs × (length bs ≡ 4)
decode_uint-pack_uint v h =
    let (small, e) = pack_uint_inv v h in
    rw e (decode_uint-be_bytes v small, omega arith, omega arith)

-- Any four bytes are the packing of the number that they decode to.
pub pack_uint-decode_uint :
    (raw : Bytes) {v : ℕ} → All IsByte raw → decode_uint raw ≡ ok v → pack_uint v ≡ ok raw
unfolding pack_uint decode_uint
pack_uint-decode_uint [] bytes h = cc
pack_uint-decode_uint (a ∷ []) bytes h = cc
pack_uint-decode_uint (a ∷ b ∷ []) bytes h = cc
pack_uint-decode_uint (a ∷ b ∷ c ∷ []) bytes h = cc
pack_uint-decode_uint (a ∷ b ∷ c ∷ d ∷ []) bytes h = ground arith
pack_uint-decode_uint (a ∷ b ∷ c ∷ d ∷ e ∷ rest) bytes h = ground arith

-- A read frame, exactly where its three numbers fit.
pub build_read_lem :
    (register parameter flag : ℕ)
    → register < 256
    → flag < 256
    → parameter < 2 ^ 32
    → build_read register parameter flag ≡ ok (0x10 ∷ 0xAC ∷ register ∷ flag ∷ be_bytes parameter)
unfolding build_read
build_read_lem register parameter flag r f p = ground arith

pub build_write_uint_lem :
    (register v : ℕ)
    → register < 256
    → v < 2 ^ 32
    → build_write_uint register v ≡ ok (0x10 ∷ 0xAC ∷ register ∷ 1 ∷ be_bytes v)
unfolding build_write_uint
build_write_uint_lem register v r p = ground arith
