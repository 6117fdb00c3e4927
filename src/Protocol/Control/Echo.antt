-- ===== src/Protocol/Control/Echo.antt =====
-- The control frame byte by byte, and the replies that are accepted.
use spinev_ble.Base.{
  ℕ, ◌+◌, ◌*◌, ◌^◌, ◌≤◌, ◌<◌, ◌≡◌, ◌↔◌, refl, [], ◌∷◌, inl, inr, some, Option-cases, same_refl,
  same→eq, arith,
}
use spinev_ble.Base.Int.{pos, negsuc}
use spinev_ble.Base.Bits.{bit_or-shl}
use spinev_ble.Errors.{ok, raise, password_error, command_rejected_error}
use spinev_ble.Const.Registers.{Command, command_value, start, stop, register_value, control}
use spinev_ble.Models.{Bytes, Frame}
use spinev_ble.Protocol.Frames.{parse_frame, pack_uint}
use spinev_ble.Protocol.Frames.Value.{be_bytes, build_write_uint_lem}
use spinev_ble.Protocol.Frames.Reply.{parse_frame_inv, parse_frame-frame_bytes}
use spinev_ble.Protocol.Control.{
  PyValue, int, bool, object, build_control, check_control_reply, check_control_frame,
}

-- The frame of a command: the command byte, then the password's three bytes.
abbrev pub control_frame : Command → ℕ → Bytes
control_frame c p =
    0x10 ∷ 0xAC ∷ register_value control ∷ 1 ∷ be_bytes (command_value c * 2 ^ 24 + p)

-- A password that is an integer of three bytes gives the frame of the command: header, control
-- register, write flag, command byte, password. The value is never the one that means a refusal.
pub build_control_lem :
    (c : Command) (p : ℕ) → p < 2 ^ 24 → build_control c (int (pos p)) ≡ ok (control_frame c p)
unfolding build_control
build_control_lem start p h =
    ground (arith, bit_or-shl 24 1 p h, build_write_uint_lem 60 (1 * 2 ^ 24 + p))
build_control_lem stop p h =
    ground (arith, bit_or-shl 24 16 p h, build_write_uint_lem 60 (16 * 2 ^ 24 + p))

-- Every other value is refused: a negative or too large number, a `bool`, any other object.
pub build_control_refuses :
    (c : Command) (v : PyValue)
    → ((p : ℕ) → v ≡ int (pos p) → 2 ^ 24 ≤ p)
    → build_control c v ≡ raise password_error
unfolding build_control
build_control_refuses c (int (pos p)) h = ground (arith, h p refl)
build_control_refuses c (int (negsuc n)) h = ground arith
build_control_refuses c (bool b) h = refl
build_control_refuses c object h = refl

-- A command's value is not all ones.
value_lt : (c : Command) (p : ℕ) → p < 2 ^ 24 → command_value c * 2 ^ 24 + p < 0xFFFFFFFF
value_lt start p h = omega arith
value_lt stop p h = omega arith

accepted_frame :
    (c : Command) (p : ℕ) (frame : Frame)
    → check_control_frame (control_frame c p) frame ≡ ok tt
    → (frame.register ≡ 60) × (frame.raw ≡ be_bytes (command_value c * 2 ^ 24 + p))
unfolding check_control_frame pack_uint
accepted_frame c p frame h =
    ground (arith, same→eq frame.raw (be_bytes (command_value c * 2 ^ 24 + p)))

echo_accepted :
    (c : Command) (p flag : ℕ)
    → p < 2 ^ 24
    → check_control_frame
        (control_frame c p)
        (record { register = 60; flag = flag; raw = be_bytes (command_value c * 2 ^ 24 + p) })
      ≡ ok tt
unfolding check_control_frame pack_uint
echo_accepted c p flag h = ground (
  arith,
  value_lt c p h,
  same→eq (be_bytes (command_value c * 2 ^ 24 + p)) (be_bytes 0xFFFFFFFF),
  same_refl (be_bytes (command_value c * 2 ^ 24 + p)),
)

parse_echo :
    (c : Command) (p flag : ℕ)
    → parse_frame (0x10 ∷ 0xAC ∷ 60 ∷ flag ∷ be_bytes (command_value c * 2 ^ 24 + p))
      ≡ some (record { register = 60; flag = flag; raw = be_bytes (command_value c * 2 ^ 24 + p) })
parse_echo c p flag = parse_frame-frame_bytes _ (omega arith)

-- For a sent control frame, a reply is accepted exactly when it is a frame on the control register
-- whose value bytes are those that were sent; the flag of the reply is not looked at.
pub check_control_reply-ok :
    (c : Command) (p : ℕ) (reply : Bytes)
    → p < 2 ^ 24
    → (check_control_reply (control_frame c p) reply ≡ ok tt) ↔ (
        (flag : ℕ) × (reply
          ≡ 0x10 ∷ 0xAC ∷ register_value control ∷ flag ∷ be_bytes (command_value c * 2 ^ 24 + p)))
unfolding check_control_reply
check_control_reply-ok c p reply h = (
  λ e. elim (Option-cases (parse_frame reply)) [
    | inl nothing ↦ cc (rw (nothing, check_control_reply) at e)
    | inr (frame, found) ↦
        let (reg, raw) = accepted_frame c p frame (rw (found, check_control_reply) at e) in
        (frame.flag, rw (← reg, ← raw) (parse_frame_inv reply found).0)
  ],
  λ (flag, e). rw (e, parse_echo c p flag, check_control_reply) (echo_accepted c p flag h),
)

-- A control reply that carries all ones is a refusal, whatever was sent.
pub check_control_reply_rejected :
    (sent : Bytes) (flag : ℕ)
    → check_control_reply sent
        (0x10 ∷ 0xAC ∷ register_value control ∷ flag ∷ 0xFF ∷ 0xFF ∷ 0xFF ∷ 0xFF ∷ [])
      ≡ raise command_rejected_error
unfolding check_control_reply check_control_frame parse_frame pack_uint
check_control_reply_rejected sent flag = refl
