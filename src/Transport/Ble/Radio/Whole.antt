-- ===== src/Transport/Ble/Radio/Whole.antt =====
-- A read over the Bluetooth link, end to end.
use mathlib.Core.List.{append_assoc}
use spinev_ble.Base.{
  ℕ, ◌^◌, ◌<◌, ◌≡◌, refl, ap, ◌∙◌, Bool, true, false, some, List, [], ◌∷◌, ◌++◌, All,
}
use spinev_ble.Errors.{Result, ok}
use spinev_ble.Const.Registers.{Register, register_value, operation_value, read}
use spinev_ble.Models.{Bytes}
use spinev_ble.Charger.State.Callbacks.{matches}
use spinev_ble.Charger.Exchange.{Event, notify, send_done, wake}
use spinev_ble.Charger.Exchange.Outcomes.{noise}
use spinev_ble.Charger.Exchange.Sound.{IsIdle}
use spinev_ble.Charger.Session.{Session}
use spinev_ble.Charger.Reads.{read_uint}
use spinev_ble.Charger.Reads.Values.{read_frame, read_reply, read_uint_answered_late}
use spinev_ble.Transport.Contract.{delivered}
use spinev_ble.Transport.Ble.{Ble, is_connected, send_written, handle_notify}
use spinev_ble.Transport.Ble.Radio.{heard, radio_events, radio_world}

module _ {F D : Type 0} (up : ℕ → Bool) (b : Ble F D) (c : ℕ) (f : F) (linked : b.client ≡ some c)
    (alive : up c ≡ true) (listening : b.on_frame ≡ some f) where
  link_up : is_connected up b ≡ true
  link_up = rw linked alive

  acked : send_written up b (ok tt) ≡ ok tt
  unfolding send_written
  acked = rw (linked, alive) refl

  heard-delivered :
      (ps : List Bytes) (p : Bytes)
      → delivered (heard up b (ps ++ p ∷ [])) ≡ noise ps ++ notify p ∷ []
  unfolding handle_notify
  heard-delivered [] p = rw listening refl
  heard-delivered (q ∷ ps) p =
      rw listening (ap (λ (es : List Event). notify q ∷ es) (heard-delivered ps p))

  radio_events_lem :
      (ps : List Bytes) (p : Bytes)
      → radio_events up b (ok tt) (ps ++ p ∷ [])
        ≡ (send_done (ok tt) ∷ wake ∷ []) ++ (noise ps ++ notify p ∷ wake ∷ [])
  unfolding radio_events
  radio_events_lem ps p =
      ap (λ r. (send_done r ∷ wake ∷ []) ++ (delivered (heard up b (ps ++ p ∷ [])) ++ wake ∷ []))
        acked
      ∙ ap (λ es. (send_done (ok tt) ∷ wake ∷ []) ++ (es ++ wake ∷ [])) (heard-delivered ps p)
      ∙ ap (λ es. (send_done (ok tt) ∷ wake ∷ []) ++ es)
          (append_assoc (noise ps) (notify p ∷ []) (wake ∷ []))

  -- A read over Bluetooth, from the method down to the characteristic and back: when the link is up
  -- and listened to, nothing is in flight, the write of the frame is acknowledged, and the charger
  -- notifies of the reply with a 32 bit value, behind any other payloads, then reading the register
  -- returns that value.
  pub read_uint_radioed :
      (written : List Bytes → Bytes → Result (Unit {0}))
      (notified : List Bytes → Bytes → List Bytes) (s : Session) (r : Register) (v : ℕ)
      (ps : List Bytes)
      → v < 2 ^ 32
      → IsIdle s.client
      → written s.handed (read_frame (register_value r)) ≡ ok tt
      → notified s.handed (read_frame (register_value r))
        ≡ ps ++ read_reply (register_value r) v ∷ []
      → All (λ q. matches (register_value r) (operation_value read) q ≡ false) ps
      → (read_uint (radio_world up b written notified) r s).0 ≡ ok v
  read_uint_radioed written notified s r v ps small idle w n others =
      read_uint_answered_late (radio_world up b written notified) s r v ps small idle link_up others
        (ap (λ x. radio_events up b x (notified s.handed (read_frame (register_value r)))) w
          ∙ ap (radio_events up b (ok tt)) n
          ∙ radio_events_lem ps (read_reply (register_value r) v))
