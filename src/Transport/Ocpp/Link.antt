-- ===== src/Transport/Ocpp/Link.antt =====
-- The OCPP tunnel as a transport of the interface: its callbacks stand for the link, and a payload
-- arrives in the answer of a transfer.
use spinev_ble.Base.{
  ◌≡◌, refl, ap, ◌∙◌, true, false, Option, none, some, is_some, List, [], ◌∷◌, All, arith,
}
use spinev_ble.Errors.{Result, ok}
use spinev_ble.Models.{Bytes, Text}
use spinev_ble.Protocol.Frames.{is_reply}
use spinev_ble.Protocol.Frames.Value.{IsByte}
use spinev_ble.Transport.Contract.{
  Call, call_frame, returned, Op, connects, refused, disconnects, drops, arrives, specified,
  specified_all, Transport, perform_all, CanAll, perform_all-Shows,
}
use spinev_ble.Transport.Hex.{parse_reply, from_hex, without_spaces, without_underscores}
use spinev_ble.Transport.Hex.Spelling.{joined, parse_reply-joined}
use spinev_ble.Transport.Ocpp.{
  Ocpp, new_ocpp, ReplyData, text, accepted, is_connected, connect, disconnect, notify_disconnected,
  hand_over, receive_data, receive,
}

-- An answer of the charger with a payload.
abbrev pub answer_with : Bytes → Result (Text × ReplyData)
answer_with p = ok (accepted, text (joined p))

nothing_parsed : (p : Bytes) → parse_reply [] ≡ ok p → is_reply p ≡ false
nothing_parsed p h =
    (unfold parse_reply from_hex without_spaces without_underscores is_reply in ground (arith, h))

module _ {F D : Type 0} where
  handed :
      (o : Ocpp F D) (p : Bytes)
      → is_reply p ≡ true
      → hand_over o (ok p) ≡ (ok tt, call_frame o.on_frame p)
  unfolding hand_over
  handed o p h = rw h refl

  -- An accepted answer whose text reads as a register reply is handed to the callback there is.
  pub receive_parsed :
      (o : Ocpp F D) (t : Text) (p : Bytes)
      → parse_reply t ≡ ok p
      → is_reply p ≡ true
      → receive o (ok (accepted, text t)) ≡ (ok tt, call_frame o.on_frame p)
  unfolding receive receive_data
  receive_parsed o [] p h reply = cc (nothing_parsed p h)
  receive_parsed o (c ∷ t) p h reply = ap (hand_over o) h ∙ handed o p reply

module _ {F D : Type 0} where
  -- Connecting does not fail.
  pub perform : Op F D → Ocpp F D → Ocpp F D × List (Call F D)
  perform (connects f d) o = (connect f d o, returned (ok tt) ∷ [])
  perform (refused f d x) o = (connect f d o, returned (ok tt) ∷ [])
  perform disconnects o = (disconnect o, [])
  perform drops o = notify_disconnected o
  perform (arrives p) o = (o, (receive o (answer_with p)).1)

  -- A connected tunnel is connected again with the callbacks that it has, no connect fails, and what
  -- arrives are register replies.
  abbrev pub IsPossible : Op F D → Option (F × D) → Type 0
  IsPossible (connects f d) none = Unit
  IsPossible (connects f d) (some b) = (f, d) ≡ b
  IsPossible (refused f d x) up = ⊥
  IsPossible disconnects up = Unit
  IsPossible drops up = Unit
  IsPossible (arrives p) up = All IsByte p × (is_reply p ≡ true)

  abbrev pub IsShown : Ocpp F D → Option (F × D) → Type 0
  IsShown o (some (f, d)) = (o.on_frame ≡ some f) × (o.on_disconnect ≡ some d)
  IsShown o none = (o.on_frame ≡ none) × (o.on_disconnect ≡ none)

  pub IsShown-connected :
      (o : Ocpp F D) (up : Option (F × D)) → IsShown o up → is_connected o ≡ is_some up
  IsShown-connected o (some (f, d)) h = ground arith
  IsShown-connected o none h = ground arith

  pub follows :
      (op : Op F D) (o : Ocpp F D) (up : Option (F × D))
      → IsShown o up
      → IsPossible op up
      → IsShown (perform op o).0 (specified op up).0 × ((perform op o).1 ≡ (specified op up).1)
  unfolding perform specified connect disconnect notify_disconnected
  follows (connects f d) o none h c = ((refl, refl), refl)
  follows (connects f d) o (some (g, e)) h c = ((ap (λ b. some b.0) c, ap (λ b. some b.1) c), refl)
  follows (refused f d x) o up h c = absurd c
  follows disconnects o up h c = ((refl, refl), refl)
  follows drops o (some (f, d)) h c = ((refl, refl), rw (h.1) refl)
  follows drops o none h c = ((refl, refl), rw (h.1) refl)
  follows (arrives p) o (some (f, d)) h c = (
    h,
    ap (λ r. r.1) (receive_parsed o (joined p) p (parse_reply-joined p c.0) c.1)
        ∙ ap (λ g. call_frame g p) (h.0),
  )
  follows (arrives p) o none h c = (
    h,
    ap (λ r. r.1) (receive_parsed o (joined p) p (parse_reply-joined p c.0) c.1)
        ∙ ap (λ g. call_frame g p) (h.0),
  )

  -- The tunnel as a transport.
  abbrev pub ocpp_transport : Transport F D (Ocpp F D)
  ocpp_transport = record {
    perform = perform;
    connected = is_connected;
    Can = IsPossible;
    Shows = IsShown;
    shows_connected = IsShown-connected;
    follows = follows;
  }

  -- The OCPP tunnel, from its creation on, over any sequence of connects, disconnects, drops that are
  -- reported and register replies that arrive in accepted answers, where each connect of a tunnel that
  -- is not connected has callbacks of its own, and one of a connected tunnel has the callbacks that the
  -- tunnel has already: it makes the callbacks that the interface specifies, those of the client that
  -- it is connected for, in their order, none of them while it is not connected, and is connected at
  -- the end exactly if the link is up. Connecting a connected tunnel with other callbacks is not among
  -- them.
  pub ocpp_transport-Shows :
      (os : List (Op F D))
      → CanAll ocpp_transport os none
      → IsShown (perform_all ocpp_transport os new_ocpp).0 (specified_all os none).0
        × ((perform_all ocpp_transport os new_ocpp).1 ≡ (specified_all {F = F} {D = D} os none).1)
        × (is_connected (perform_all ocpp_transport os new_ocpp).0
            ≡ is_some (specified_all {F = F} {D = D} os none).0)
  ocpp_transport-Shows os c =
      let (h, e) = perform_all-Shows ocpp_transport os new_ocpp none (refl, refl) c in
      (h, e, IsShown-connected _ _ h)
