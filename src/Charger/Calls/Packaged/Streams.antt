-- ===== src/Charger/Calls/Packaged/Streams.antt =====
-- The exceptions that the history and the OCPP settings may raise.
use spinev_ble.Base.{ℕ, ◌^◌, ◌<◌, refl, inl, inr, Option, List, [], ◌∷◌, arith}
use spinev_ble.Errors.{Result, ok, err, raise, connection_error}
use spinev_ble.Const.Registers.{
  Register, register_value, history_sessions, ocpp_port, ocpp_host, ocpp_path, ocpp_charge_point_id,
}
use spinev_ble.Models.{Bytes, ChargingSession}
use spinev_ble.Protocol.History.{decode_session_record}
use spinev_ble.Protocol.History.Records.{decode_session_record_total}
use spinev_ble.Charger.Write.Sound.{IsPackaged, send_frame-IsPackaged}
use spinev_ble.Charger.Session.{World, require_transport, send, send_all, write_frames}
use spinev_ble.Charger.History.{
  add_session, sessions_from, clear_bulk, take_bulk, collecting, get_history,
}
use spinev_ble.Charger.History.Collect.{collect_bulk-IsIdle}
use spinev_ble.Charger.Reads.{read_string, get_ocpp_config}
use spinev_ble.Charger.Calls.Packaged.{
  Packs, bind-Packs, lift-Packs, pure-Packs, if_packs, ok_packaged, build_read_packaged,
  register_small, request-Packs, read_uint-Packs,
}

record_packaged : (raw : Bytes) → IsPackaged (decode_session_record raw)
record_packaged raw = elim (decode_session_record_total raw) [
  | inl e ↦ ok_packaged _ _ e
  | inr (s, e, _, _, _, _) ↦ ok_packaged _ _ e
]

round_packaged :
    (d : Result (Option ChargingSession))
    (next : Option ChargingSession → Result (List ChargingSession))
    → IsPackaged d
    → ((o : Option ChargingSession) → IsPackaged (next o))
    → IsPackaged (elim d as (λ _. Result (List ChargingSession)) [ ok o ↦ next o | err e ↦ err e ])
round_packaged (ok o) next h k = k o
round_packaged (err e) next h k = h

sessions_from_packaged :
    (ss : List ChargingSession) (raws : List Bytes) → IsPackaged (sessions_from ss raws)
unfolding sessions_from
sessions_from_packaged ss [] = tt
sessions_from_packaged ss (raw ∷ raws) =
    round_packaged (decode_session_record raw) (λ o. sessions_from (add_session ss o) raws)
      (record_packaged raw) λ o. sessions_from_packaged (add_session ss o) raws

module _ (w : World) where
  require_transport-Packs : Packs (require_transport w)
  unfolding require_transport
  require_transport-Packs = record {
    packs = λ s i.
        if_packs (w.connected s.handed) (ok tt, s) (raise connection_error, s) (tt, i) (refl, i);
  }

  send-Packs : (frame : Bytes) → Packs (send w frame)
  unfolding send
  send-Packs frame = record {
    packs = λ s i. send_frame-IsPackaged s.client i (w.events s.handed frame);
  }

  send_all-Packs : (frames : List Bytes) → Packs (send_all w frames)
  unfolding send_all
  send_all-Packs [] = pure-Packs tt
  send_all-Packs (f ∷ fs) =
      bind-Packs (send w f) (λ _. send_all w fs) (send-Packs f) λ _. send_all-Packs fs

  pub write_frames-Packs : (frames : List Bytes) → Packs (write_frames w frames)
  unfolding write_frames
  write_frames-Packs frames =
      bind-Packs (require_transport w) (λ _. send_all w frames) require_transport-Packs
        λ _. send_all-Packs frames

  clear_bulk-Packs : Packs clear_bulk
  clear_bulk-Packs = record { packs = λ s i. (tt, i) }

  take_bulk-Packs : Packs take_bulk
  take_bulk-Packs = record { packs = λ s i. (tt, i) }

  collecting-Packs : (timeout : ℕ) → Packs (collecting w timeout)
  unfolding collecting
  collecting-Packs timeout = record {
    packs = λ s i. (tt, collect_bulk-IsIdle timeout (w.arrivals s.handed) s.client i);
  }

  pub get_history-Packs : (timeout count : ℕ) → count < 2 ^ 32 → Packs (get_history w timeout count)
  unfolding get_history
  get_history-Packs timeout count small = bind-Packs _ _ require_transport-Packs λ _.
      bind-Packs _ _ clear_bulk-Packs λ _.
        bind-Packs _ _
          (lift-Packs _ (
            build_read_packaged (register_value history_sessions) count
              (register_small history_sessions) small))
          λ frame. bind-Packs _ _ (send-Packs frame) λ _.
            bind-Packs _ _ (collecting-Packs timeout) λ _.
              bind-Packs _ _ take_bulk-Packs
                λ records. lift-Packs _ (sessions_from_packaged [] records)

  read_string-Packs : (r : Register) → Packs (read_string w (register_value r))
  unfolding read_string
  read_string-Packs r =
      bind-Packs _ _
        (lift-Packs _ (build_read_packaged (register_value r) 0 (register_small r) (omega arith)))
        λ frame. bind-Packs _ _ (request-Packs w frame (register_value r)) λ payload. pure-Packs _

  pub get_ocpp_config-Packs : Packs (get_ocpp_config w)
  unfolding get_ocpp_config
  get_ocpp_config-Packs = bind-Packs _ _ (read_string-Packs ocpp_host) λ host.
      bind-Packs _ _ (read_uint-Packs w ocpp_port) λ port.
        bind-Packs _ _ (read_string-Packs ocpp_path)
          λ path. bind-Packs _ _ (read_string-Packs ocpp_charge_point_id) λ id. pure-Packs _
