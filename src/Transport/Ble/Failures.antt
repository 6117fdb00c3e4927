-- ===== src/Transport/Ble/Failures.antt =====
-- The errors of `BleTransport`.
use spinev_ble.Base.{ℕ, ◌≡◌, refl, ap, ◌∙◌, Bool, false, [], ◌∷◌}
use spinev_ble.Errors.{Exception, Result, ok, err, raise, connection_error}
use spinev_ble.Transport.Ble.{Ble, is_connected, connect, keep_callbacks, established, subscribed}
use spinev_ble.Transport.Ble.Link.{connect_new}

module _ {F D : Type 0} (up : ℕ → Bool) (f : F) (d : D) (b : Ble F D) where
  -- A transport without a link, whose connection cannot be opened, or opens and cannot be
  -- subscribed to, raises a connection error and has the client that it had. In the second case,
  -- and only then, the new client is closed, so that the charger's one slot is free again.
  connect_fails :
      (e : Exception) (c : ℕ) (notified : ℕ → Result (Unit {0}))
      → is_connected up b ≡ false
      → notified c ≡ err e
      → (connect up f d (err e) notified b ≡ (raise connection_error, keep_callbacks f d b, []))
        × (connect up f d (ok c) notified b
            ≡ (raise connection_error, keep_callbacks f d b, c ∷ []))
        × ((keep_callbacks f d b).client ≡ b.client)
  unfolding established keep_callbacks
  connect_fails e c notified h n = (
    connect_new up f d b (err e) notified h,
    connect_new up f d b (ok c) notified h ∙ ap (λ r. subscribed c r (keep_callbacks f d b)) n,
    refl,
  )
