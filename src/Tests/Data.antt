-- ===== src/Tests/Data.antt =====
-- A client, transports and payloads for the runs.
use spinev_ble.Base.{ℕ, true, none, some, List, [], ◌∷◌, leb}
use spinev_ble.Base.Int.{pos}
use spinev_ble.Errors.{ok}
use spinev_ble.Float.{Floats}
use spinev_ble.Models.{Bytes, Datetime, ChargingSession}
use spinev_ble.Protocol.Control.{int}
use spinev_ble.Charger.State.{Client, new_client}
use spinev_ble.Charger.Exchange.{Event, notify, send_done, wake}
use spinev_ble.Charger.Session.{World, Session}

abbrev pub fresh : Client
fresh = new_client none

abbrev pub fresh_session : Session
fresh_session = record { client = fresh; handed = [] }

abbrev pub known_session : Session
known_session = record { client = new_client (some (int (pos 123456))); handed = [] }

-- A transport on which every frame meets the same events.
abbrev pub world_of : List Event → World
world_of events = record { connected = λ _. true; events = λ _ _. events; arrivals = λ _. [] }

abbrev pub silent_world : World
silent_world = world_of []

-- Every write is acknowledged at once.
abbrev pub willing_world : World
willing_world = world_of (send_done (ok tt) ∷ wake ∷ [])

-- Every frame is answered with one payload.
abbrev pub answering_world : Bytes → World
answering_world p = world_of (notify p ∷ send_done (ok tt) ∷ wake ∷ [])

-- A reply to a read of the timezone, 5:30.
abbrev pub timezone_reply : Bytes
timezone_reply = 0x10 ∷ 0xAC ∷ 0x78 ∷ 0 ∷ 0 ∷ 0 ∷ 5 ∷ 30 ∷ []

-- A reply of a write to the same register.
abbrev pub stray_reply : Bytes
stray_reply = 0x10 ∷ 0xAC ∷ 0x78 ∷ 1 ∷ 0 ∷ 0 ∷ 5 ∷ 30 ∷ []

abbrev pub timezone_read : Bytes
timezone_read = 0x10 ∷ 0xAC ∷ 0x78 ∷ 0 ∷ 0 ∷ 0 ∷ 0 ∷ 0 ∷ []

abbrev pub morning : Datetime
morning = record { year = 2024; month = 2; day = 29; hour = 7; minute = 15; second = 0 }

abbrev pub noon : Datetime
noon = record { year = 2024; month = 2; day = 29; hour = 12; minute = 0; second = 59 }

abbrev pub charge : ChargingSession
charge = record { start = morning; end = noon; energy = 1234 }

-- Whole amperes in place of floats: limits are numbers of four bytes.
abbrev pub amperes : Floats
amperes = record {
  Float = ℕ;
  pack = λ n. ok (0 ∷ 0 ∷ 0 ∷ n ∷ []);
  unpack = λ bs. 0;
  leb = leb;
  min_current = 6;
  default_max_current = 32;
}
