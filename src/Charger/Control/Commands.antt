-- ===== src/Charger/Control/Commands.antt =====
-- `_async_send_control`, with the frame, the request and the check of the reply.
use spinev_ble.Base.{ℕ, ◌^◌, ◌≤◌, ◌<◌, ◌≡◌, sym, ap, subst, ◌*◌, ◌+◌, some, ◌∙◌, ◌∷◌, arith}
use spinev_ble.Base.Int.{pos, negsuc}
use spinev_ble.Errors.{ok, raise, password_error}
use spinev_ble.Const.Registers.{Command, command_value, register_value, control}
use spinev_ble.Models.{Bytes}
use spinev_ble.Protocol.Frames.Value.{be_bytes}
use spinev_ble.Protocol.Control.{PyValue, int, bool, object, build_control, check_control_reply}
use spinev_ble.Protocol.Control.Echo.{
  control_frame, build_control_lem, build_control_refuses, check_control_reply-ok,
}
use spinev_ble.Charger.Session.{World, Session, M, lift, ◌>>=◌, request}
use spinev_ble.Charger.Session.Steps.{bind_ok, bind_err, bind_inv}
use spinev_ble.Charger.Control.Password.{require_password_known}
use spinev_ble.Charger.Control.{require_password, send_control}

build_control_inv :
    (c : Command) (v : PyValue) {frame : Bytes}
    → build_control c v ≡ ok frame
    → (p : ℕ) × (p < 2 ^ 24) × (v ≡ int (pos p)) × (frame ≡ control_frame c p)
build_control_inv c (int (pos p)) h =
    ground (arith, build_control_lem c p, build_control_refuses c (int (pos p)))
build_control_inv c (int (negsuc n)) h =
    ground (arith, build_control_refuses c (int (negsuc n)) (λ p e. cc))
build_control_inv c (bool b) h = ground (arith, build_control_refuses c (bool b) (λ p e. cc))
build_control_inv c object h = ground (arith, build_control_refuses c object (λ p e. cc))

module _ (w : World) (c : Command) (s : Session) where
  asked : PyValue → M (Unit {0})
  asked v = lift (build_control c v) >>= λ frame.
      request w frame (register_value control) >>= λ reply. lift (check_control_reply frame reply)

  -- Start and stop: when the method returns, a password of three bytes was at hand, the control
  -- frame with the command and that password was sent, and the charger's reply was a frame on the
  -- control register with the very value bytes that were sent.
  pub send_control_echoed :
      (send_control w c s).0 ≡ ok tt
      → (p : ℕ) × (t : Session) × (flag : ℕ) × (p < 2 ^ 24)
        × (require_password w s ≡ (ok (int (pos p)), t))
        × ((request w (control_frame c p) (register_value control) t).0
            ≡ ok (
                0x10
                ∷ 0xAC
                ∷ register_value control
                ∷ flag
                ∷ be_bytes (command_value c * 2 ^ 24 + p)))
  unfolding send_control asked
  send_control_echoed h =
      let t = (require_password w s).1 in
      let (v, e, g) = bind_inv (require_password w) asked s h in
      let h1 = sym (ap (λ r. r.0) g) ∙ h in
      let (frame, e1, g1) =
        bind_inv (lift (build_control c v))
          (λ frame. request w frame (register_value control) >>= λ reply.
            lift (check_control_reply frame reply))
          t h1 in
      let h2 = sym (ap (λ r. r.0) g1) ∙ h1 in
      let (reply, e2, g2) =
        bind_inv (request w frame (register_value control))
          (λ reply. lift (check_control_reply frame reply)) t h2 in
      let h3 = sym (ap (λ r. r.0) g2) ∙ h2 in
      let (p, small, is_int, is_frame) = build_control_inv c v (ap (λ r. r.0) e1) in
      let (flag, is_echo) =
        (check_control_reply-ok c p reply small).0
          (subst (λ f. check_control_reply f reply ≡ ok tt) is_frame h3) in
      (
        p,
        t,
        flag,
        small,
        e ∙ ap (λ u. (ok u, t)) is_int,
        subst (λ f. (request w f (register_value control) t).0 ≡ ok reply) is_frame
              (ap (λ r. r.0) e2)
            ∙ ap ok is_echo,
      )

  -- With a value that is not an integer of three bytes as the password, start and stop raise a
  -- password error before anything is sent.
  pub send_control_bad_password :
      (v : PyValue)
      → s.client.password ≡ some v
      → ((p : ℕ) → v ≡ int (pos p) → 2 ^ 24 ≤ p)
      → send_control w c s ≡ (raise password_error, s)
  unfolding send_control asked
  send_control_bad_password v h bad =
      bind_ok (require_password w) asked (require_password_known w s v h)
      ∙ bind_err (lift (build_control c v))
          (λ frame. request w frame (register_value control) >>= λ reply.
            lift (check_control_reply frame reply))
          (ap (λ r. (r, s)) (build_control_refuses c v bad))
