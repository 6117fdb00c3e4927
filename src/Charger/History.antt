-- ===== src/Charger/History.antt =====
-- `async_get_history` of src/spinev_ble/charger.py: the request, the collection of streamed
-- records, and the sessions that they hold. Times are in milliseconds.
pub mod Collect
pub mod Complete
pub mod Sessions
pub mod Whole
use Prim.Native.Nat.{min}
use spinev_ble.Base.{
  ℕ, ◌-◌, Bool, true, false, ◌||◌, ◌&&◌, Option, none, some, List, [], ◌∷◌, ◌++◌, ltb, ◌==◌,
  if◌then◌else◌,
}
use spinev_ble.Base.Int.{ℤ, pos, negsuc}
use spinev_ble.Errors.{Result, ok, err, struct_error}
use spinev_ble.Const.{bulk_idle_timeout}
use spinev_ble.Const.Registers.{register_value, operation_value, read, history_sessions}
use spinev_ble.Models.{Bytes, Datetime, ChargingSession}
use spinev_ble.Protocol.Frames.{build_read}
use spinev_ble.Protocol.History.{decode_session_record}
use spinev_ble.Charger.State.{Client, on_notify, on_disconnect}
use spinev_ble.Charger.Exchange.{Event, notify, drop, send_done, expire, wake}
use spinev_ble.Charger.Session.{World, Session, M, pure, lift, ◌>>=◌, ◌>>◌, require_transport, send}

-- What the transport's callbacks do during the wait.
abbrev pub callback : Event → Client → Client
callback (notify p) c = on_notify p c
callback drop c = on_disconnect c
callback (send_done r) c = c
callback expire c = c
callback wake c = c

abbrev pub clear_event : Client → Client
clear_event c = record c { bulk_event = false }

-- The loop of `_collect_bulk`: `remaining` until the deadline, and `idle` until the `wait_for` in
-- progress times out. An arrival that sets the event ends that wait, and the loop begins another.
unfoldable pub collect : List (ℕ × Event) → ℕ → ℕ → Client → Client
collect [] remaining idle c = c
collect ((gap, e) ∷ rest) remaining idle c =
    let c' = callback e c in
    let next =
      collect rest (remaining - gap) (min bulk_idle_timeout (remaining - gap)) (clear_event c') in
    let same_wait = collect rest (remaining - gap) (idle - gap) c' in
    if ltb idle gap
    then c
    else if c'.bulk_event
    then (if remaining - gap == 0 then clear_event c' else next)
    else same_wait

-- `_collect_bulk`. An event that is set on entry only starts the first wait anew.
unfoldable pub collect_bulk : ℕ → List (ℕ × Event) → Client → Client
collect_bulk timeout arrivals c =
    let run = collect arrivals timeout (min bulk_idle_timeout timeout) (clear_event c) in
    if timeout == 0 then c else run

abbrev pub same_datetime : Datetime → Datetime → Bool
same_datetime a b =
    (a.year == b.year)
    && (a.month == b.month)
    && (a.day == b.day)
    && (a.hour == b.hour)
    && (a.minute == b.minute)
    && (a.second == b.second)

-- Equality of the keys `(start, end, energy_kwh)`.
abbrev pub same_session : ChargingSession → ChargingSession → Bool
same_session s t =
    same_datetime s.start t.start && same_datetime s.end t.end && (s.energy == t.energy)

abbrev pub seen_before : ChargingSession → List ChargingSession → Bool
seen_before s [] = false
seen_before s (t ∷ ts) = same_session s t || seen_before s ts

-- One round of the loop over the records, on the decoded record: the sessions so far.
unfoldable pub add_session : List ChargingSession → Option ChargingSession → List ChargingSession
add_session sessions none = sessions
add_session sessions (some s) = if seen_before s sessions then sessions else sessions ++ s ∷ []

unfoldable pub sessions_from : List ChargingSession → List Bytes → Result (List ChargingSession)
sessions_from sessions [] = ok sessions
sessions_from sessions (raw ∷ raws) = elim (decode_session_record raw) [
  | ok decoded ↦ sessions_from (add_session sessions decoded) raws
  | err e ↦ err e
]

-- `self._bulk.clear()`, and `self._bulk_event.clear()` with it at the beginning.
abbrev pub clear_bulk : M (Unit {0})
clear_bulk s = (ok tt, record s { client = record (s.client) { bulk = []; bulk_event = false } })

-- `records = list(self._bulk)` and `self._bulk.clear()`
abbrev pub take_bulk : M (List Bytes)
take_bulk s = (ok s.client.bulk, record s { client = record (s.client) { bulk = [] } })

module _ (w : World) (timeout : ℕ) where
  unfoldable pub collecting : M (Unit {0})
  collecting s = (ok tt, record s { client = collect_bulk timeout (w.arrivals s.handed) s.client })

  unfoldable pub get_history : ℕ → M (List ChargingSession)
  get_history count = do
    require_transport w
    clear_bulk
    frame ← lift (build_read (register_value history_sessions) count (operation_value read))
    send w frame
    collecting
    records ← take_bulk
    lift (sessions_from [] records)

  -- `async_get_history` with any integer: `struct.pack` refuses one below zero.
  unfoldable pub get_history_of : ℤ → M (List ChargingSession)
  unfolding get_history
  get_history_of (pos n) = get_history n
  get_history_of (negsuc n) = do require_transport w; clear_bulk; lift (err struct_error)
