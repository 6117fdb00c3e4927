-- ===== src/Charger/Session.antt =====
-- The methods of `SpinEvCharger` run one after the other, each under the client's lock. A `World` is
-- what the program does not decide: whether the transport is connected, and what happens while a
-- frame is under way, as functions of the frames that were handed to the transport before. A method
-- is an action on the session, the client with those frames.
pub mod Preserve
pub mod Rules
pub mod Quiet
pub mod Steps
pub mod Trace
use spinev_ble.Base.{ℕ, Bool, true, false, List, [], ◌∷◌, ◌++◌, if◌then◌else◌}
use spinev_ble.Errors.{
  Exception, spinev, Result, ok, err, raise, SpinEvError, connection_error, timeout_error,
}
use spinev_ble.Models.{Bytes}
use spinev_ble.Charger.State.{Client}
use spinev_ble.Charger.Exchange.{Event, exchange}
use spinev_ble.Charger.Write.{send_frame}

-- `arrivals` are the events of a bulk read, each with the milliseconds since the one before.
pub record World : Type 0 where
  pub connected : List Bytes → Bool
  pub events : List Bytes → Bytes → List Event
  pub arrivals : List Bytes → List (ℕ × Event)

pub record Session : Type 0 where
  pub client : Client
  pub handed : List Bytes

abbrev pub M : Type 0 → Type 0
M A = Session → Result A × Session

module _ {A : Type 0} where
  abbrev pub pure : A → M A
  pure a s = (ok a, s)

  -- A pure part of a method that may raise.
  abbrev pub lift : Result A → M A
  lift r s = (r, s)

infixl 5 ◌>>=◌ ◌>>◌
abbrev pub ◌>>=◌ : {A B : Type 0} → M A → (A → M B) → M B
◌>>=◌ m f s = let (r, s') = m s in elim r [ ok a ↦ f a s' | err e ↦ (err e, s') ]

abbrev pub ◌>>◌ : {A B : Type 0} → M A → M B → M B
m >> k = m >>= λ _. k

abbrev pub is_timeout : Exception → Bool
is_timeout (spinev timeout_error) = true
is_timeout _ = false

module _ (w : World) where
  -- `_request`, with the check of `_require_transport` at its beginning.
  unfoldable pub request : Bytes → ℕ → M Bytes
  request frame register s =
      let (r, c) = exchange true (w.events s.handed frame) frame register s.client in
      if w.connected s.handed
      then (r, record { client = c; handed = s.handed ++ frame ∷ [] })
      else (raise connection_error, s)

  -- `_require_transport`
  unfoldable pub require_transport : M (Unit {0})
  require_transport s = if w.connected s.handed then (ok tt, s) else (raise connection_error, s)

  -- `_send`
  unfoldable pub send : Bytes → M (Unit {0})
  send frame s =
      let (r, c) = send_frame (w.events s.handed frame) s.client in
      (r, record { client = c; handed = s.handed ++ frame ∷ [] })

  -- The loop of `_write_frames`.
  unfoldable pub send_all : List Bytes → M (Unit {0})
  send_all [] = pure tt
  send_all (f ∷ fs) = let rest = send_all fs in send f >> rest

  unfoldable pub write_frames : List Bytes → M (Unit {0})
  write_frames frames = require_transport >> send_all frames
