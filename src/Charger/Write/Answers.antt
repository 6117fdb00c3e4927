-- ===== src/Charger/Write/Answers.antt =====
-- What `_send_frame` returns when the transport's send ends first.
use spinev_ble.Base.{◌≡◌, [], ◌∷◌, arith}
use spinev_ble.Errors.{Exception, err, raise}
use spinev_ble.Charger.State.{pending, cancelled, Client}
use spinev_ble.Charger.Exchange.{send_done, wake, package_error}
use spinev_ble.Charger.Exchange.Sound.{get_or-snoc}
use spinev_ble.Charger.Write.{begin_write, write_events, send_frame, write_step}

module _ (c : Client) where
  -- A send that ends with an error gives the package's error for it, and one that ends well succeeds.
  pub send_frame_failed :
      (e : Exception) → (send_frame (send_done (err e) ∷ wake ∷ []) c).0 ≡ raise (package_error e)
  unfolding send_frame write_events begin_write write_step
  send_frame_failed e = ground (arith, get_or-snoc c.futures pending cancelled)
