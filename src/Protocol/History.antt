-- ===== src/Protocol/History.antt =====
-- History records of src/spinev_ble/protocol.py, and the `datetime` constructor that they use.
pub mod Records
use spinev_ble.Base.{
  ℕ, ◌+◌, ◌-◌, ◌*◌, ◌%◌, Bool, true, false, ◌||◌, ◌&&◌, not, Option, none, some, List, [], ◌∷◌,
  length, take, drop, get_or, ltb, leb, ◌==◌, if◌then◌else◌,
}
use spinev_ble.Errors.{Result, ok, err, builtin_value_error, ◌>>=◌}
use spinev_ble.Const.{
  session_record_length, event_record_length, record_start_marker, record_end_marker, year_epoch,
}
use spinev_ble.Models.{Bytes, Datetime, ChargingSession}
use spinev_ble.Protocol.Frames.{decode_uint}

-- `data[a:b]`
abbrev pub slice : ℕ → ℕ → Bytes → Bytes
slice a b bs = take (b - a) (drop a bs)

unfoldable pub is_leap : ℕ → Bool
is_leap y = (y % 4 == 0) && (not (y % 100 == 0) || (y % 400 == 0))

unfoldable pub days_in_month : ℕ → ℕ → ℕ
unfolding is_leap
days_in_month y m =
    if m == 2
    then (if is_leap y then 29 else 28)
    else if m == 4 || m == 6 || m == 9 || m == 11
    then 30
    else 31

-- What `datetime(...)` accepts; it raises ValueError on the rest.
unfoldable pub is_datetime : Datetime → Bool
unfolding days_in_month
is_datetime t =
    (leb 1 t.year && leb t.year 9999)
    && (leb 1 t.month && leb t.month 12)
    && (leb 1 t.day && leb t.day (days_in_month t.year t.month))
    && ltb t.hour 24
    && ltb t.minute 60
    && ltb t.second 60

-- The arguments of `datetime(...)` in `_decode_timestamp`.
abbrev pub timestamp_of : Bytes → Bytes → Datetime
timestamp_of time_part date_part = record {
  year = year_epoch + get_or date_part 0 0;
  month = get_or date_part 1 0;
  day = get_or date_part 2 0;
  hour = get_or time_part 0 0;
  minute = get_or time_part 1 0;
  second = get_or time_part 2 0;
}

unfoldable pub decode_timestamp : Bytes → Bytes → Result Datetime
decode_timestamp time_part date_part =
    let t = timestamp_of time_part date_part in
    if is_datetime t then ok t else err builtin_value_error

-- `data[0] == RECORD_START_MARKER and data[-1] == RECORD_END_MARKER`
unfoldable pub has_markers : Bytes → Bool
has_markers bs =
    get_or bs 0 0 == record_start_marker && get_or bs (length bs - 1) 0 == record_end_marker

-- The body of the `try`.
unfoldable pub session_period : Bytes → Result (Datetime × Datetime)
session_period bs = do
  start ← decode_timestamp (slice 1 4 bs) (slice 6 9 bs)
  end ← decode_timestamp (slice 11 14 bs) (slice 16 19 bs)
  ok (start, end)

-- The `except ValueError`, and the rest of the function.
unfoldable pub finish_record :
    Bytes → Result (Datetime × Datetime) → Result (Option ChargingSession)
finish_record bs (ok (start, end)) = do
  energy ← decode_uint (slice 21 25 bs)
  ok (some (record { start = start; end = end; energy = energy }))
finish_record bs (err builtin_value_error) = ok none
finish_record bs (err e) = err e

unfoldable pub decode_session_record : Bytes → Result (Option ChargingSession)
unfolding has_markers
decode_session_record bs =
    if not (length bs == session_record_length) || not (has_markers bs)
    then ok none
    else finish_record bs (session_period bs)

unfoldable pub is_history_record : Bytes → Bool
unfolding has_markers
is_history_record bs =
    (length bs == session_record_length || length bs == event_record_length) && has_markers bs
