-- ===== src/Protocol/Frames/Reply.antt =====
-- Parsing against building: what `parse_frame` accepts and returns, and frames read back.
use spinev_ble.Base.{ℕ, ◌≡◌, true, some, [], ◌∷◌, length, arith}
use spinev_ble.Models.{Bytes, Frame}
use spinev_ble.Protocol.Frames.{parse_frame, is_reply}

-- The bytes of a frame.
abbrev pub frame_bytes : Frame → Bytes
frame_bytes f = 0x10 ∷ 0xAC ∷ f.register ∷ f.flag ∷ f.raw

-- The bytes of a frame with four value bytes parse to it.
pub parse_frame-frame_bytes : (f : Frame) → length f.raw ≡ 4 → parse_frame (frame_bytes f) ≡ some f
unfolding parse_frame
parse_frame-frame_bytes f h = ground arith

-- What parses is the bytes of the frame, and its value has four bytes.
pub parse_frame_inv :
    (bs : Bytes) {f : Frame} → parse_frame bs ≡ some f → (bs ≡ frame_bytes f) × (length f.raw ≡ 4)
unfolding parse_frame
parse_frame_inv [] h = cc
parse_frame_inv (a ∷ []) h = cc
parse_frame_inv (a ∷ b ∷ []) h = ground arith
parse_frame_inv (a ∷ b ∷ c ∷ []) h = ground arith
parse_frame_inv (a ∷ b ∷ c ∷ d ∷ raw) h = ground arith

-- A payload that parses as a frame is a register reply.
pub parse_frame-is_reply : (bs : Bytes) {f : Frame} → parse_frame bs ≡ some f → is_reply bs ≡ true
unfolding parse_frame is_reply
parse_frame-is_reply bs h = ground arith

-- A reply begins with the header and carries a register and a flag.
pub is_reply_inv :
    (bs : Bytes)
    → is_reply bs ≡ true
    → (r f x : ℕ) × (rest : Bytes) × (bs ≡ 0x10 ∷ 0xAC ∷ r ∷ f ∷ x ∷ rest)
unfolding is_reply
is_reply_inv [] h = cc
is_reply_inv (a ∷ []) h = cc
is_reply_inv (a ∷ b ∷ []) h = ground arith
is_reply_inv (a ∷ b ∷ c ∷ []) h = ground arith
is_reply_inv (a ∷ b ∷ c ∷ d ∷ []) h = ground arith
is_reply_inv (a ∷ b ∷ c ∷ d ∷ x ∷ rest) h = (c, d, x, rest, ground arith)
