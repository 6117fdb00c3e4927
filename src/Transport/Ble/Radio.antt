-- ===== src/Transport/Ble/Radio.antt =====
-- A client whose transport is the Bluetooth link: `BleTransport.async_send` and `_handle_notify` of
-- src/spinev_ble/transports/ble.py under the requests of src/spinev_ble/charger.py.
pub mod Whole
use spinev_ble.Base.{ℕ, Bool, List, [], ◌∷◌, ◌++◌}
use spinev_ble.Errors.{Result}
use spinev_ble.Models.{Bytes}
use spinev_ble.Charger.Exchange.{Event, send_done, wake}
use spinev_ble.Charger.Session.{World}
use spinev_ble.Transport.Contract.{Call, delivered}
use spinev_ble.Transport.Ble.{Ble, is_connected, send_written, handle_notify}

module _ {F D : Type 0} (up : ℕ → Bool) (b : Ble F D) where
  -- The callbacks for the notifications that come.
  abbrev pub heard : List Bytes → List (Call F D)
  heard [] = []
  heard (p ∷ ps) = handle_notify p b ++ heard ps

  -- The events of one frame: the write ends, and the notifications behind it are handed over.
  unfoldable pub radio_events : Result (Unit {0}) → List Bytes → List Event
  radio_events written notified =
      (send_done (send_written up b written) ∷ wake ∷ [])
      ++ (delivered (heard notified) ++ wake ∷ [])

  -- `written` is the outcome of `write_gatt_char` for a frame, and `notified` what the charger
  -- notifies of behind it, both behind the frames that were handed to the transport before.
  abbrev pub radio_world :
      (List Bytes → Bytes → Result (Unit {0})) → (List Bytes → Bytes → List Bytes) → World
  radio_world written notified = record {
    connected = λ _. is_connected up b;
    events = λ handed frame. radio_events (written handed frame) (notified handed frame);
    arrivals = λ _. [];
  }
