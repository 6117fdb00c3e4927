-- ===== src/Charger/Session/Steps.antt =====
-- One step of a method: how it goes on behind an action whose outcome is known.
use spinev_ble.Base.{ℕ, ◌≡◌, ◌≢◌, refl, sym, ◌∙◌, inl, inr, ap, true, false, [], ◌∷◌, ◌++◌}
use spinev_ble.Errors.{Exception, Result, ok, err, raise, connection_error, Result-cases}
use spinev_ble.Models.{Bytes}
use spinev_ble.Charger.Exchange.{exchange}
use spinev_ble.Charger.Session.{World, Session, M, ◌>>=◌, require_transport, request}

ok_not_err : {A : Type 0} {a : A} {e : Exception} → ok a ≢ err e
ok_not_err h = cc

module _ {A B : Type 0} (m : M A) (f : A → M B) where
  next : Result A × Session → Result B × Session
  next p = elim p.0 [ ok a ↦ f a p.1 | err e ↦ (err e, p.1) ]

  pub bind_ok : {s t : Session} {a : A} → m s ≡ (ok a, t) → (m >>= f) s ≡ f a t
  unfolding next
  bind_ok h = ap next h

  pub bind_err : {s t : Session} {e : Exception} → m s ≡ (err e, t) → (m >>= f) s ≡ (err e, t)
  unfolding next
  bind_err h = ap next h

  -- A success of both is a success of the first, and the outcome of the second behind it.
  pub bind_inv :
      (s : Session) {b : B}
      → ((m >>= f) s).0 ≡ ok b
      → (a : A) × (m s ≡ (ok a, (m s).1)) × ((m >>= f) s ≡ f a (m s).1)
  bind_inv s h = elim (Result-cases (m s).0) [
    | inl (a, e) ↦
        (a, ap (λ (r : Result A). (r, (m s).1)) e, bind_ok (ap (λ (r : Result A). (r, (m s).1)) e))
    | inr (e, q) ↦
        absurd
          (ok_not_err (sym h ∙ ap (λ p. p.0) (bind_err (ap (λ (r : Result A). (r, (m s).1)) q))))
  ]

module _ (w : World) (s : Session) where
  pub require_transport_open : w.connected s.handed ≡ true → require_transport w s ≡ (ok tt, s)
  unfolding require_transport
  require_transport_open h = rw h refl

  pub require_transport_closed :
      w.connected s.handed ≡ false → require_transport w s ≡ (raise connection_error, s)
  unfolding require_transport
  require_transport_closed h = rw h refl

  pub request_open :
      (frame : Bytes) (register : ℕ)
      → w.connected s.handed ≡ true
      → let (r, c) = exchange true (w.events s.handed frame) frame register s.client in
        request w frame register s ≡ (r, record { client = c; handed = s.handed ++ frame ∷ [] })
  unfolding request
  request_open frame register h = rw h refl

  pub request_closed :
      (frame : Bytes) (register : ℕ)
      → w.connected s.handed ≡ false
      → request w frame register s ≡ (raise connection_error, s)
  unfolding request
  request_closed frame register h = rw h refl
