-- ===== src/Charger/Session/Rules.antt =====
-- Rules for methods: what is in flight behind a method, and what was handed to the transport, for
-- the primitive actions and for methods built from others.
use mathlib.Core.List.{append-nil, append_assoc}
use spinev_ble.Base.{ℕ, ◌≡◌, refl, sym, ap, ◌∙◌, true, List, [], ◌∷◌, ◌++◌}
use spinev_ble.Errors.{ok, raise, connection_error}
use spinev_ble.Models.{Bytes}
use spinev_ble.Charger.Exchange.{exchange}
use spinev_ble.Charger.Exchange.Sound.{IsIdle, exchange-IsSound}
use spinev_ble.Charger.Write.Sound.{send_frame-IsPackaged}
use spinev_ble.Charger.Session.Preserve.{
  Relation, Preserves, if_Between, bind-Preserves, pure-Preserves,
}
use spinev_ble.Charger.Session.{
  World, Session, M, request, require_transport, send, send_all, write_frames,
}

-- The second session is idle, and was handed all that the first was and more.
pub record Follows (s t : Session) : Type 0 where
  pub idle : IsIdle t.client
  pub more : List Bytes
  pub extends : t.handed ≡ s.handed ++ more

pub Follows-trans : {s t u : Session} → Follows s t → Follows t u → Follows s u
Follows-trans {s} f g = record {
  idle = g.idle;
  more = f.more ++ g.more;
  extends =
      g.extends
      ∙ ap (λ (l : List Bytes). l ++ g.more) f.extends
      ∙ append_assoc s.handed f.more g.more;
}

pub Follows-refl : (s : Session) → IsIdle s.client → Follows s s
Follows-refl s i = record { idle = i; more = []; extends = sym (append-nil s.handed) }

-- A method that begins with nothing in flight ends with nothing in flight.
abbrev pub orderly : Relation
orderly = record {
  Between = λ s t. IsIdle s.client → Follows s t;
  same = Follows-refl;
  next = λ s t u f g i. Follows-trans (f i) (g (f i).idle);
}

abbrev pub IsOrderly : {A : Type 0} → M A → Type 0
IsOrderly = Preserves orderly

module _ (w : World) where
  pub request-IsOrderly : (frame : Bytes) (register : ℕ) → IsOrderly (request w frame register)
  unfolding request
  request-IsOrderly frame register = record {
    keeps = λ s i.
        let (r, c) = exchange true (w.events s.handed frame) frame register s.client in
        if_Between orderly (w.connected s.handed) s
          (r, record { client = c; handed = s.handed ++ frame ∷ [] }) (raise connection_error, s)
          (λ i. record {
            idle = (exchange-IsSound frame register s.client i true (w.events s.handed frame)).1;
            more = frame ∷ [];
            extends = refl;
          })
          (Follows-refl s) i;
  }

  pub require_transport-IsOrderly : IsOrderly (require_transport w)
  unfolding require_transport
  require_transport-IsOrderly = record {
    keeps = λ s i.
        if_Between orderly (w.connected s.handed) s (ok tt, s) (raise connection_error, s)
          (Follows-refl s) (Follows-refl s) i;
  }

  pub send-IsOrderly : (frame : Bytes) → IsOrderly (send w frame)
  unfolding send
  send-IsOrderly frame = record {
    keeps = λ s i. record {
      idle = (send_frame-IsPackaged s.client i (w.events s.handed frame)).1;
      more = frame ∷ [];
      extends = refl;
    };
  }

  pub send_all-IsOrderly : (frames : List Bytes) → IsOrderly (send_all w frames)
  unfolding send_all
  send_all-IsOrderly [] = pure-Preserves orderly tt
  send_all-IsOrderly (f ∷ fs) =
      bind-Preserves orderly (send w f) (λ _. send_all w fs) (send-IsOrderly f)
        (λ _. send_all-IsOrderly fs)

  pub write_frames-IsOrderly : (frames : List Bytes) → IsOrderly (write_frames w frames)
  unfolding write_frames
  write_frames-IsOrderly frames =
      bind-Preserves orderly (require_transport w) (λ _. send_all w frames)
        require_transport-IsOrderly (λ _. send_all-IsOrderly frames)
