-- ===== src/Protocol/History/Records.antt =====
-- Session records against the sessions that they stand for, and against register replies.
use spinev_ble.Base.{
  ℕ, ◌+◌, ◌-◌, ◌^◌, ◌≤◌, ◌<◌, ◌≡◌, ◌⊎◌, inl, inr, true, false, ◌&&◌, none, some, [], ◌∷◌, ◌++◌,
  length, drop, length-take, length-drop, Bool-cases, &&-true, arith, ◌==◌,
}
use spinev_ble.Errors.{ok, err, builtin_value_error}
use spinev_ble.Const.{session_record_length}
use spinev_ble.Models.{Bytes, Datetime, ChargingSession}
use spinev_ble.Protocol.Frames.{decode_uint, is_reply, parse_frame, unpack_from}
use spinev_ble.Protocol.Frames.Value.{be_bytes, decode_uint-be_bytes}
use spinev_ble.Protocol.History.{
  is_datetime, timestamp_of, decode_timestamp, session_period, finish_record, decode_session_record,
  slice, has_markers, is_history_record,
}

-- The record of a session: the time and the date of its start and of its end, each with two bytes
-- behind it that mean nothing to the decoder, and the energy.
abbrev pub record_bytes : ChargingSession → (a b c d e f g h : ℕ) → Bytes
record_bytes s a b c d e f g h =
    0x7C
    ∷ s.start.hour
    ∷ s.start.minute
    ∷ s.start.second
    ∷ a
    ∷ b
    ∷ (s.start.year - 1900)
    ∷ s.start.month
    ∷ s.start.day
    ∷ c
    ∷ d
    ∷ s.end.hour
    ∷ s.end.minute
    ∷ s.end.second
    ∷ e
    ∷ f
    ∷ (s.end.year - 1900)
    ∷ s.end.month
    ∷ s.end.day
    ∷ g
    ∷ h
    ∷ (be_bytes s.energy ++ 0x25 ∷ [])

timestamp_lem :
    (t : Datetime)
    → is_datetime t ≡ true
    → 1900 ≤ t.year
    → decode_timestamp (t.hour ∷ t.minute ∷ t.second ∷ []) ((t.year - 1900) ∷ t.month ∷ t.day ∷ [])
      ≡ ok t
unfolding decode_timestamp
timestamp_lem t valid epoch = rw (year_back, valid)
  where
    year_back : 1900 + (t.year - 1900) ≡ t.year
    year_back = omega arith

decode_timestamp_inv :
    (time_part date_part : Bytes)
    → ((t : Datetime) × (decode_timestamp time_part date_part ≡ ok t) × (is_datetime t ≡ true))
      ⊎ (decode_timestamp time_part date_part ≡ err builtin_value_error)
unfolding decode_timestamp
decode_timestamp_inv time_part date_part =
    elim (Bool-cases (is_datetime (timestamp_of time_part date_part))) [
      | inl valid ↦ inl (timestamp_of time_part date_part, rw valid, valid)
      | inr invalid ↦ inr (rw invalid)
    ]

-- The record of any session with real timestamps from 1900 on and an energy of 32 bits decodes to
-- that session, whatever stands in the bytes that are not used.
pub decode_session_record-record_bytes :
    (s : ChargingSession) (a b c d e f g h : ℕ)
    → is_datetime s.start ≡ true
    → is_datetime s.end ≡ true
    → 1900 ≤ s.start.year
    → 1900 ≤ s.end.year
    → s.energy < 2 ^ 32
    → decode_session_record (record_bytes s a b c d e f g h) ≡ ok (some s)
unfolding decode_session_record finish_record
decode_session_record-record_bytes s a b c d e f g h v w p q small =
    rw (period, decode_uint-be_bytes s.energy small)
  where
    period : session_period (record_bytes s a b c d e f g h) ≡ ok (s.start, s.end)
    period = unfold session_period in rw (timestamp_lem s.start v p, timestamp_lem s.end w q)

session_period_inv :
    (bs : Bytes)
    → ((t u : Datetime) × (session_period bs ≡ ok (t, u))
        × (is_datetime t ≡ true)
        × (is_datetime u ≡ true))
      ⊎ (session_period bs ≡ err builtin_value_error)
unfolding session_period
session_period_inv bs = elim (decode_timestamp_inv (slice 1 4 bs) (slice 6 9 bs)) [
  | inr bad ↦ inr (rw bad)
  | inl (t, e, valid) ↦ elim (decode_timestamp_inv (slice 11 14 bs) (slice 16 19 bs)) [
    | inr bad ↦ inr (rw (e, bad))
    | inl (u, f, valid') ↦ inl (t, u, rw (e, f), valid, valid')
  ]
]

energy_bytes : (bs : Bytes) → length bs ≡ 26 → length (slice 21 25 bs) ≡ 4
energy_bytes bs h = omega (arith, length-take 4 (drop 21 bs), length-drop 21 bs)

energy_read : (bs : Bytes) → length bs ≡ 26 → (n : ℕ) × (decode_uint (slice 21 25 bs) ≡ ok n)
unfolding decode_uint
energy_read bs h = (unpack_from 0 (slice 21 25 bs), rw (energy_bytes bs h))

-- Decoding raises nothing: it answers a session or `None` for every payload, and a session only
-- for a history record of 26 bytes whose two timestamps are real.
pub decode_session_record_total :
    (bs : Bytes)
    → (decode_session_record bs ≡ ok none)
      ⊎ ((s : ChargingSession) × (decode_session_record bs ≡ ok (some s))
          × (length bs ≡ session_record_length)
          × (is_history_record bs ≡ true)
          × (is_datetime s.start ≡ true)
          × (is_datetime s.end ≡ true))
unfolding decode_session_record is_history_record finish_record
decode_session_record_total bs = elim (Bool-cases ((length bs == 26) && has_markers bs)) [
  | inr other ↦ inl (ground arith)
  | inl shape ↦
      let (long, marked) = &&-true (length bs == 26) (has_markers bs) shape in
      elim (session_period_inv bs) [
        | inr bad ↦ inl (ground arith)
        | inl (t, u, e, v, w) ↦
            let (n, f) = energy_read bs (ground arith) in
            inr (
              record { start = t; end = u; energy = n },
              ground arith,
              ground arith,
              ground arith,
              v,
              w,
            )
      ]
]

-- No payload is both a history record and a register reply, and none parses as a frame, so the two
-- kinds of notification are told apart.
pub history-not-reply :
    (bs : Bytes) → is_history_record bs ≡ true → (is_reply bs ≡ false) × (parse_frame bs ≡ none)
unfolding is_history_record is_reply parse_frame
history-not-reply [] h = cc
history-not-reply (a ∷ []) h = ground arith
history-not-reply (a ∷ b ∷ rest) h = (ground arith, ground arith)
