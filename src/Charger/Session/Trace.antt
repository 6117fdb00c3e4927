-- ===== src/Charger/Session/Trace.antt =====
-- What `_write_frames` hands to the transport.
use mathlib.Core.List.{append-nil, append_assoc}
use spinev_ble.Base.{
  ◌≡◌, refl, sym, ap, ◌∙◌, true, false, List, [], ◌∷◌, ◌++◌, Bool-cases, inl, inr,
}
use spinev_ble.Errors.{Exception, Result, ok, err, raise, is_spinev, connection_error}
use spinev_ble.Models.{Bytes}
use spinev_ble.Charger.Exchange.Sound.{IsIdle}
use spinev_ble.Charger.Write.Sound.{send_frame-IsPackaged, IsPackaged}
use spinev_ble.Charger.Session.{World, Session, send, send_all, require_transport, write_frames}
use spinev_ble.Charger.Session.Steps.{
  bind_ok, bind_err, require_transport_open, require_transport_closed,
}

-- A write that raised: some of the frames were handed over, in order, and the error is one of the
-- package's.
pub record Stopped (frames : List Bytes) (s t : Session) (e : Exception) : Type 0 where
  pub begun : List Bytes
  pub left : List Bytes
  pub splits : frames ≡ begun ++ left
  pub extends : t.handed ≡ s.handed ++ begun
  pub packaged : is_spinev e ≡ true

abbrev pub Wrote : List Bytes → Session → Session → Result (Unit {0}) → Type 0
Wrote frames s t (ok _) = t.handed ≡ s.handed ++ frames
Wrote frames s t (err e) = Stopped frames s t e

module _ (w : World) where
  more_frames :
      (f : Bytes) (fs : List Bytes) (s t u : Session) (r : Result (Unit {0}))
      → t.handed ≡ s.handed ++ f ∷ []
      → Wrote fs t u r
      → Wrote (f ∷ fs) s u r
  more_frames f fs s t u (ok _) h g =
      g ∙ ap (λ (l : List Bytes). l ++ fs) h ∙ append_assoc s.handed (f ∷ []) fs
  more_frames f fs s t u (err e) h g = record {
    begun = f ∷ g.begun;
    left = g.left;
    splits = ap (λ (l : List Bytes). f ∷ l) g.splits;
    extends =
        g.extends
        ∙ ap (λ (l : List Bytes). l ++ g.begun) h
        ∙ append_assoc s.handed (f ∷ []) g.begun;
    packaged = g.packaged;
  }

  after_send :
      (f : Bytes) (fs : List Bytes) (s t : Session) (r : Result (Unit {0}))
      → t.handed ≡ s.handed ++ f ∷ []
      → IsPackaged r
      → Wrote fs t (send_all w fs t).1 (send_all w fs t).0
      → let (q, u) = elim r as (λ _. Result (Unit {0}) × Session) [
        | ok a ↦ send_all w fs t
        | err e ↦ (err e, t)
      ] in
        Wrote (f ∷ fs) s u q
  after_send f fs s t (ok _) h p g = more_frames f fs s t _ _ h g
  after_send f fs s t (err e) h p g = record {
    begun = f ∷ [];
    left = fs;
    splits = refl;
    extends = h;
    packaged = p;
  }

  send_all-Wrote :
      (frames : List Bytes) (s : Session)
      → IsIdle s.client
      → Wrote frames s (send_all w frames s).1 (send_all w frames s).0
  unfolding send_all send
  send_all-Wrote [] s i = sym (append-nil s.handed)
  send_all-Wrote (f ∷ fs) s i =
      let (p, j) = send_frame-IsPackaged s.client i (w.events s.handed f) in
      after_send f fs s (send w f s).1 _ refl p (send_all-Wrote fs (send w f s).1 j)

  pub write_frames_open :
      (frames : List Bytes) (s : Session)
      → w.connected s.handed ≡ true
      → write_frames w frames s ≡ send_all w frames s
  unfolding write_frames
  write_frames_open frames s e =
      bind_ok (require_transport w) (λ _. send_all w frames) (require_transport_open w s e)

  pub write_frames_closed :
      (frames : List Bytes) (s : Session)
      → w.connected s.handed ≡ false
      → write_frames w frames s ≡ (raise connection_error, s)
  unfolding write_frames
  write_frames_closed frames s e =
      bind_err (require_transport w) (λ _. send_all w frames) (require_transport_closed w s e)

  -- Writing frames one after the other, with nothing in flight: on success the transport was
  -- handed exactly these frames in their order, and otherwise some of the first of them, with an
  -- error of the package.
  pub write_frames-Wrote :
      (frames : List Bytes) (s : Session)
      → IsIdle s.client
      → Wrote frames s (write_frames w frames s).1 (write_frames w frames s).0
  write_frames-Wrote frames s i = elim (Bool-cases (w.connected s.handed)) [
    | inl e ↦ rw (write_frames_open frames s e) (send_all-Wrote frames s i)
    | inr e ↦ rw (write_frames_closed frames s e) (record {
      begun = [];
      left = frames;
      splits = refl;
      extends = sym (append-nil s.handed);
      packaged = refl;
    })
  ]
