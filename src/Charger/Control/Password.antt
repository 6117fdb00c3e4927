-- ===== src/Charger/Control/Password.antt =====
-- `_async_require_password` and the password that the client keeps.
use spinev_ble.Base.{◌≡◌, refl, ap, Option, none, some}
use spinev_ble.Base.Int.{pos}
use spinev_ble.Errors.{ok}
use spinev_ble.Protocol.Control.{PyValue, int}
use spinev_ble.Charger.Session.{World, Session}
use spinev_ble.Charger.Session.Steps.{bind_inv}
use spinev_ble.Charger.Control.{store_password, get_password, password_or_read, require_password}

module _ (w : World) (s : Session) where
  -- With a password that the caller gave or that was read before, no frame is sent for it, and the
  -- session is as it was.
  pub require_password_known :
      (v : PyValue) → s.client.password ≡ some v → require_password w s ≡ (ok v, s)
  unfolding require_password password_or_read
  require_password_known v h = ap (λ o. password_or_read w o s) h

  stores :
      (o : Option PyValue) {v : PyValue}
      → s.client.password ≡ o
      → (password_or_read w o s).0 ≡ ok v
      → (password_or_read w o s).1.client.password ≡ some v
  unfolding password_or_read
  stores none h e =
      let (n, _, g) = bind_inv (get_password w) (λ n. store_password (int (pos n))) s e in cc
  stores (some u) h e = cc

  -- A password that was obtained is the client's from then on.
  pub require_password_stored :
      {v : PyValue}
      → (require_password w s).0 ≡ ok v
      → (require_password w s).1.client.password ≡ some v
  unfolding require_password
  require_password_stored e = stores s.client.password refl e

-- Once a password was obtained, whether it was given or read, the next use of it gets the same one,
-- sends nothing and changes nothing.
require_password_once :
    (w : World) (s : Session) {v : PyValue}
    → (require_password w s).0 ≡ ok v
    → let t = (require_password w s).1 in require_password w t ≡ (ok v, t)
require_password_once w s {v} e =
    require_password_known w (require_password w s).1 v (require_password_stored w s e)
