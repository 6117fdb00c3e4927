-- ===== src/Tests/Reads.antt =====
-- The theorems on alarms and the history, on concrete runs.
use spinev_ble.Base.{ℕ, ◌≡◌, refl, true, All, List, [], ◌∷◌, ◌++◌, take, arith}
use spinev_ble.Errors.{ok}
use spinev_ble.Models.{Bytes}
use spinev_ble.Protocol.History.{is_history_record}
use spinev_ble.Protocol.History.Records.{record_bytes}
use spinev_ble.Charger.Exchange.{Event, notify, send_done, wake}
use spinev_ble.Charger.Write.{begin_write, write_events, send_frame}
use spinev_ble.Charger.Session.{World, Session, send}
use spinev_ble.Charger.History.{sessions_from, collect_bulk}
use spinev_ble.Charger.History.Collect.{HasCollected, collect_bulk-HasCollected}
use spinev_ble.Charger.History.Sessions.{decoded, first_of_each, sessions_from-first_of_each}
use spinev_ble.Charger.Reads.{read_alarm_word, get_alarm_defs}
use spinev_ble.Charger.Reads.Alarms.{gathered, get_alarm_defs-gathered}
use spinev_ble.Tests.Data.{fresh, fresh_session, charge, stray_reply}
use spinev_ble.Charger.History.{get_history, clear_bulk}
use spinev_ble.Charger.History.Collect.{records_in}
use spinev_ble.Charger.History.Whole.{history_frame, get_history_complete}
use spinev_ble.Charger.History.Complete.{IsPrompt}

-- A charger that answers every frame with its register, its flag and the bits 0 and 2.
abbrev both_world : World
both_world = record {
  connected = λ _. true;
  events = λ _ frame. notify (take 4 frame ++ 0 ∷ 0 ∷ 0 ∷ 5 ∷ []) ∷ send_done (ok tt) ∷ wake ∷ [];
  arrivals = λ _. [];
}

get_alarm_defs-gathered_example :
    let first = read_alarm_word both_world 1 fresh_session in
    get_alarm_defs both_world fresh_session
    ≡ gathered both_world first (read_alarm_word both_world 2 first.1)
get_alarm_defs-gathered_example = get_alarm_defs-gathered both_world fresh_session

-- Two copies of a record, with another payload between them.
abbrev history_arrivals : List (ℕ × Event)
history_arrivals =
    (100, notify (record_bytes charge 0 0 0 0 0 0 0 0))
    ∷ (50, notify stray_reply)
    ∷ (100, notify (record_bytes charge 1 0 0 0 0 0 0 0))
    ∷ []

collect_bulk-HasCollected_example :
    HasCollected 5000 history_arrivals fresh (collect_bulk 5000 history_arrivals fresh)
collect_bulk-HasCollected_example = collect_bulk-HasCollected 5000 history_arrivals fresh

abbrev two_records : List Bytes
two_records = record_bytes charge 0 0 0 0 0 0 0 0 ∷ record_bytes charge 1 0 0 0 0 0 0 0 ∷ []

sessions_from-first_of_each_example :
    sessions_from [] two_records ≡ ok (first_of_each (decoded two_records))
sessions_from-first_of_each_example = sessions_from-first_of_each two_records

abbrev history_world : World
history_world = record {
  connected = λ _. true;
  events = λ _ _. send_done (ok tt) ∷ wake ∷ [];
  arrivals = λ _. history_arrivals;
}

abbrev history_asked : Session
history_asked = (send history_world (history_frame 40) (clear_bulk fresh_session).1).1

history_sent :
    send history_world (history_frame 40) (clear_bulk fresh_session).1 ≡ (ok tt, history_asked)
unfolding send send_frame write_events begin_write
history_sent = refl

-- Two records, the second behind a longer pause.
abbrev stream : List (ℕ × Event)
stream =
    (100, notify (record_bytes charge 0 0 0 0 0 0 0 0))
    ∷ (350, notify (record_bytes charge 1 0 0 0 0 0 0 0))
    ∷ []

abbrev stream_world : World
stream_world = record {
  connected = λ _. true;
  events = λ _ _. send_done (ok tt) ∷ wake ∷ [];
  arrivals = λ _. stream;
}

abbrev stream_asked : Session
stream_asked = (send stream_world (history_frame 40) (clear_bulk fresh_session).1).1

stream_sent :
    send stream_world (history_frame 40) (clear_bulk fresh_session).1 ≡ (ok tt, stream_asked)
unfolding send send_frame write_events begin_write
stream_sent = refl

stream-IsPrompt : All IsPrompt stream
unfolding is_history_record
stream-IsPrompt = ((omega arith, (_, refl, refl)), ((omega arith, (_, refl, refl)), tt))

get_history_complete_example :
    (get_history stream_world 5000 40 fresh_session).0
    ≡ ok (first_of_each (decoded (stream_asked.client.bulk ++ records_in stream)))
get_history_complete_example =
    get_history_complete stream_world 5000 40 fresh_session stream_asked (omega arith) refl
      stream_sent stream-IsPrompt (omega arith)
