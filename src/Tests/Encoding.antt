-- ===== src/Tests/Encoding.antt =====
-- The frame and value theorems on concrete data.
use spinev_ble.Base.{
  ◌≡◌, refl, ◌⊎◌, inl, ◌&&◌, ◌==◌, true, some, none, List, [], ◌∷◌, length, arith,
}
use spinev_ble.Errors.{ok}
use spinev_ble.Const.{session_record_length}
use spinev_ble.Models.{Bytes, ChargingSession}
use spinev_ble.Protocol.Text.{build_string_write, decode_string, strip}
use spinev_ble.Protocol.Text.Chunks.{carried}
use spinev_ble.Protocol.Text.RoundTrip.{decode_string-build_string_write}
use spinev_ble.Protocol.Alarms.{decode_alarm_defs}
use spinev_ble.Protocol.Alarms.Table.{alarms}
use spinev_ble.Protocol.Alarms.Index.{keep, bit_set, decode_alarm_defs-keep}
use spinev_ble.Protocol.History.{decode_session_record, is_datetime, is_history_record}
use spinev_ble.Protocol.History.Records.{
  record_bytes, decode_session_record-record_bytes, decode_session_record_total,
}
use spinev_ble.Tests.Data.{charge}

leap_day : is_datetime charge.start ≡ true
unfolding is_datetime
leap_day = refl

leap_noon : is_datetime charge.end ≡ true
unfolding is_datetime
leap_noon = refl

abbrev charge_record : Bytes
charge_record = record_bytes charge 0 0 0 0 0 0 0 0

charge_record-history : is_history_record charge_record ≡ true
unfolding is_history_record
charge_record-history = refl

decode_session_record-record_bytes_example : decode_session_record charge_record ≡ ok (some charge)
decode_session_record-record_bytes_example =
    decode_session_record-record_bytes charge 0 0 0 0 0 0 0 0 leap_day leap_noon (omega arith)
      (omega arith) (omega arith)

abbrev four_bytes : Bytes
four_bytes = 1 ∷ 2 ∷ 3 ∷ 4 ∷ []

decode_alarm_defs-keep_example :
    decode_alarm_defs 0x25 1 ≡ ok (keep (λ a. (a.bank == 1) && bit_set 0x25 a.bit) alarms)
decode_alarm_defs-keep_example = decode_alarm_defs-keep 0x25 1 (inl refl)

-- "Ab " in a field of eight bytes.
decode_string-build_string_write_example :
    (fs : List Bytes) × (build_string_write 0x63 (65 ∷ 98 ∷ 32 ∷ []) 8 ≡ ok fs)
    × (decode_string (carried fs) ≡ strip (65 ∷ 98 ∷ 32 ∷ []))
decode_string-build_string_write_example =
    decode_string-build_string_write 0x63 (65 ∷ 98 ∷ 32 ∷ []) 8 (omega arith) refl (omega arith)
      (omega arith) (omega arith) (omega arith)

decode_session_record_total_example :
    (decode_session_record four_bytes ≡ ok none)
    ⊎ ((s : ChargingSession) × (decode_session_record four_bytes ≡ ok (some s))
        × (length four_bytes ≡ session_record_length)
        × (is_history_record four_bytes ≡ true)
        × (is_datetime s.start ≡ true)
        × (is_datetime s.end ≡ true))
decode_session_record_total_example = decode_session_record_total four_bytes
