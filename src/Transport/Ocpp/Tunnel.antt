-- ===== src/Transport/Ocpp/Tunnel.antt =====
-- A client whose transport is the OCPP tunnel: `OcppTunnelTransport.async_send` of
-- src/spinev_ble/transports/ocpp.py under the requests of src/spinev_ble/charger.py.
pub mod Whole
use spinev_ble.Base.{ℕ, Bool, List, [], ◌∷◌, ◌++◌}
use spinev_ble.Errors.{Result, ok, err}
use spinev_ble.Models.{Bytes, Text}
use spinev_ble.Charger.Exchange.{Event, send_done, wake}
use spinev_ble.Charger.Session.{World}
use spinev_ble.Transport.Contract.{Call, delivered}
use spinev_ble.Transport.Ocpp.{Ocpp, ReplyData, is_connected, send_request, receive}

module _ {F D : Type 0} where
  abbrev pub after_answer : Result (Unit {0}) × List (Call F D) → List Event
  after_answer (r, calls) = delivered calls ++ send_done r ∷ wake ∷ []

  abbrev pub after_request :
      Ocpp F D → (Text → Result (Text × ReplyData)) → Result Text → List Event
  after_request o answer (ok t) = after_answer (receive o (answer t))
  after_request o answer (err e) = send_done (err e) ∷ wake ∷ []

  -- The events of one frame: the send ends, behind the reply that it hands over, if any.
  unfoldable pub tunnel_events : Ocpp F D → (Text → Result (Text × ReplyData)) → Bytes → List Event
  tunnel_events o answer frame = after_request o answer (send_request o frame)

  -- `charger` is the outcome of `data_transfer` on a text, behind the frames that were handed to the
  -- transport before.
  abbrev pub tunnel_world : Ocpp F D → (List Bytes → Text → Result (Text × ReplyData)) → World
  tunnel_world o charger = record {
    connected = λ _. is_connected o;
    events = λ handed frame. tunnel_events o (charger handed) frame;
    arrivals = λ _. [];
  }
