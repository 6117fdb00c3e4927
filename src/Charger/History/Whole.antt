-- ===== src/Charger/History/Whole.antt =====
-- `async_get_history` from its request to its sessions.
use spinev_ble.Base.{ℕ, ◌^◌, ◌≤◌, ◌<◌, All, ◌≡◌, refl, ap, ◌∙◌, true, List, [], ◌∷◌, ◌++◌, arith}
use spinev_ble.Errors.{SpinEvError, ok, raise}
use spinev_ble.Const.Registers.{operation_value, read}
use spinev_ble.Models.{Bytes, ChargingSession}
use spinev_ble.Protocol.Frames.{build_read}
use spinev_ble.Protocol.Frames.Value.{be_bytes, build_read_lem}
use spinev_ble.Charger.Exchange.{Event}
use spinev_ble.Charger.Session.{World, Session, M, lift, ◌>>=◌, ◌>>◌, require_transport, send}
use spinev_ble.Charger.Session.Steps.{bind_ok, bind_err, require_transport_open}
use spinev_ble.Charger.History.{
  clear_bulk, take_bulk, collecting, get_history, sessions_from, collect_bulk,
}
use spinev_ble.Charger.History.Collect.{records_in, duration, collect_bulk-HasCollected}
use spinev_ble.Charger.History.Complete.{IsPrompt, collect_bulk_complete}
use spinev_ble.Charger.History.Sessions.{decoded, first_of_each, sessions_from-first_of_each}

-- The frame that asks for a number of sessions.
abbrev pub history_frame : ℕ → Bytes
history_frame count = 0x10 ∷ 0xAC ∷ 0x68 ∷ operation_value read ∷ be_bytes count

module _ (w : World) (timeout : ℕ) where
  collected : M (List ChargingSession)
  collected = collecting w timeout >> (take_bulk >>= λ records. lift (sessions_from [] records))

  sent_request : Bytes → M (List ChargingSession)
  unfolding collected
  sent_request frame = send w frame >> collected

  asked : ℕ → M (List ChargingSession)
  unfolding sent_request
  asked count = clear_bulk >> (lift (build_read 0x68 count (operation_value read)) >>= sent_request)

  collected_lem :
      (u : Session)
      → (collected u).0
        ≡ sessions_from [] (collect_bulk timeout (w.arrivals u.handed) u.client).bulk
  unfolding collected collecting
  collected_lem u = refl

  get_history_collected :
      (count : ℕ) (s u : Session)
      → count < 2 ^ 32
      → w.connected s.handed ≡ true
      → send w (history_frame count) (clear_bulk s).1 ≡ (ok tt, u)
      → (get_history w timeout count s).0
        ≡ ok (first_of_each (decoded (collect_bulk timeout (w.arrivals u.handed) u.client).bulk))
  unfolding get_history asked sent_request collected
  get_history_collected count s u small c h =
      ap (λ r. r.0)
        (bind_ok (require_transport w) (λ _. asked count) (require_transport_open w s c)
          ∙ bind_ok (lift (build_read 0x68 count (operation_value read))) sent_request (
              ap (λ r. (r, (clear_bulk s).1))
                (build_read_lem 0x68 count 0 (omega arith) (omega arith) small))
          ∙ bind_ok (send w (history_frame count)) (λ _. collected) h)
      ∙ collected_lem u
      ∙ sessions_from-first_of_each (collect_bulk timeout (w.arrivals u.handed) u.client).bulk

  -- Asking a connected charger for its history, when the request is delivered, returns no error but
  -- the sessions that the records decode to, the first of each in their order: the records that
  -- arrived while the request was sent, then those in a first part of what arrives behind it, one
  -- that ends within the timeout.
  get_history_answered :
      (count : ℕ) (s u : Session)
      → count < 2 ^ 32
      → w.connected s.handed ≡ true
      → send w (history_frame count) (clear_bulk s).1 ≡ (ok tt, u)
      → (seen : List (ℕ × Event)) × (unseen : List (ℕ × Event)) × (w.arrivals u.handed
          ≡ seen ++ unseen)
        × (duration seen ≤ timeout)
        × ((get_history w timeout count s).0
            ≡ ok (first_of_each (decoded (u.client.bulk ++ records_in seen))))
  get_history_answered count s u small c h =
      let (seen, unseen, splits, has, within, prompt) =
        collect_bulk-HasCollected timeout (w.arrivals u.handed) u.client in
      (
        seen,
        unseen,
        splits,
        within,
        get_history_collected count s u small c h ∙ ap (λ l. ok (first_of_each (decoded l))) has,
      )

  -- A history that streams without a pause is read whole: when the request to a connected charger is
  -- delivered, and what arrives behind it are history records only, with at most 400 milliseconds
  -- before each and less than the timeout in all, then the sessions are those of every record that
  -- came, while the request was sent and behind it, the first of each in their order.
  pub get_history_complete :
      (count : ℕ) (s u : Session)
      → count < 2 ^ 32
      → w.connected s.handed ≡ true
      → send w (history_frame count) (clear_bulk s).1 ≡ (ok tt, u)
      → All IsPrompt (w.arrivals u.handed)
      → duration (w.arrivals u.handed) < timeout
      → (get_history w timeout count s).0
        ≡ ok (first_of_each (decoded (u.client.bulk ++ records_in (w.arrivals u.handed))))
  get_history_complete count s u small c h prompt short =
      get_history_collected count s u small c h
      ∙ ap (λ l. ok (first_of_each (decoded l)))
          (collect_bulk_complete timeout (w.arrivals u.handed) u.client prompt short)

  -- A request that cannot be sent ends the method with its error.
  pub get_history_unsent :
      (count : ℕ) (s u : Session) (e : SpinEvError)
      → count < 2 ^ 32
      → w.connected s.handed ≡ true
      → send w (history_frame count) (clear_bulk s).1 ≡ (raise e, u)
      → (get_history w timeout count s).0 ≡ raise e
  unfolding get_history asked sent_request collected
  get_history_unsent count s u e small c h =
      ap (λ r. r.0)
        (bind_ok (require_transport w) (λ _. asked count) (require_transport_open w s c)
          ∙ bind_ok (lift (build_read 0x68 count (operation_value read))) sent_request (
              ap (λ r. (r, (clear_bulk s).1))
                (build_read_lem 0x68 count 0 (omega arith) (omega arith) small))
          ∙ bind_err (send w (history_frame count)) (λ _. collected) h)
