-- ===== src/Charger/Exchange/Held.antt =====
-- The client while a request is in flight, under every event: its future and its waiter.
use spinev_ble.Base.{
  ℕ, zero, suc, ◌<◌, ◌≡◌, refl, ap, ◌∙◌, Bool, true, List, [], ◌∷◌, length, set, arith, Bool-cases,
  inl, inr, ◌⊎◌,
}
use spinev_ble.Base.Dict.{erase}
use spinev_ble.Models.{Bytes}
use spinev_ble.Charger.State.{
  Future, pending, result, cancelled, Client, future_at, settle, disconnected, on_notify,
  on_disconnect,
}
use spinev_ble.Charger.State.Callbacks.{
  matches, one_waiter, get_or-set_self, on_notify_match, on_notify_other, on_notify_idle,
  on_notify_keeps, on_disconnect_one, on_disconnect_idle,
}

pub set-length {ℓ} : {A : Type ℓ} (xs : List A) (i : ℕ) (v : A) → length (set xs i v) ≡ length xs
set-length [] i v = refl
set-length (x ∷ xs) zero v = refl
set-length (x ∷ xs) (suc i) v = ap suc (set-length xs i v)

module _ (register i flag : ℕ) where
  -- The client of an open request: its future is pending and waited for; or it has the reply; or
  -- the link has dropped; or the deadline has passed.
  pub data Held (c : Client) (expired : Bool) : Type 0 where
    waiting :
        i < length c.futures
        → c.sends ≡ []
        → c.waiters ≡ one_waiter register i flag
        → future_at c.futures i ≡ pending
        → Held c expired
    answered :
        (p : Bytes)
        → c.sends ≡ []
        → c.waiters ≡ []
        → future_at c.futures i ≡ result p
        → matches register flag p ≡ true
        → Held c expired
    dropped : c.sends ≡ [] → c.waiters ≡ [] → future_at c.futures i ≡ disconnected → Held c expired
    overdue :
        c.sends ≡ []
        → (c.waiters ≡ one_waiter register i flag) ⊎ (c.waiters ≡ [])
        → future_at c.futures i ≡ cancelled
        → expired ≡ true
        → Held c expired

  pub settle_pending :
      (fs : List Future) (f : Future)
      → i < length fs
      → future_at fs i ≡ pending
      → future_at (settle fs i f) i ≡ f
  unfolding settle
  settle_pending fs f h e = ground (arith, get_or-set_self fs i f cancelled)

  settle_done : (fs : List Future) (f : Future) → future_at fs i ≡ cancelled → settle fs i f ≡ fs
  unfolding settle
  settle_done fs f h = ground arith

  pub notify-Held : (p : Bytes) (c : Client) (x : Bool) → Held c x → Held (on_notify p c) x
  notify-Held p c x (waiting h s w f) = elim (Bool-cases (matches register flag p)) [
    | inl m ↦
        rw (on_notify_match register i flag p c w m)
          (answered p s refl (settle_pending c.futures (result p) h f) m)
    | inr m ↦
        let (w', f') = on_notify_other register i flag p c w m in
        waiting (rw f' h) ((on_notify_keeps p c).0 ∙ s) (w' ∙ w) (rw f' f)
  ]
  notify-Held p c x (answered q s w f m) =
      let (w', f') = on_notify_idle p c w in answered q ((on_notify_keeps p c).0 ∙ s) w' (rw f' f) m
  notify-Held p c x (dropped s w f) =
      let (w', f') = on_notify_idle p c w in dropped ((on_notify_keeps p c).0 ∙ s) w' (rw f' f)
  notify-Held p c x (overdue s (inl w) f e) = elim (Bool-cases (matches register flag p)) [
    | inl m ↦
        rw (on_notify_match register i flag p c w m)
          (overdue s (inr refl) (rw (settle_done c.futures (result p) f) f) e)
    | inr m ↦
        let (w', f') = on_notify_other register i flag p c w m in
        overdue ((on_notify_keeps p c).0 ∙ s) (inl (w' ∙ w)) (rw f' f) e
  ]
  notify-Held p c x (overdue s (inr w) f e) =
      let (w', f') = on_notify_idle p c w in
      overdue ((on_notify_keeps p c).0 ∙ s) (inr w') (rw f' f) e

  pub drop-Held : (c : Client) (x : Bool) → Held c x → Held (on_disconnect c) x
  drop-Held c x (waiting h s w f) =
      rw (on_disconnect_one register i flag c w s)
        (dropped refl refl (settle_pending c.futures disconnected h f))
  drop-Held c x (answered p s w f m) = rw (on_disconnect_idle c w s) (answered p refl refl f m)
  drop-Held c x (dropped s w f) = rw (on_disconnect_idle c w s) (dropped refl refl f)
  drop-Held c x (overdue s (inl w) f e) =
      rw (on_disconnect_one register i flag c w s)
        (overdue refl (inr refl) (rw (settle_done c.futures disconnected f) f) e)
  drop-Held c x (overdue s (inr w) f e) =
      rw (on_disconnect_idle c w s) (overdue refl (inr refl) f e)

  pub erased : (c : Client) (x : Bool) → Held c x → erase register c.waiters ≡ []
  unfolding erase
  erased c x (waiting h s w f) = rw w (ground arith)
  erased c x (answered p s w f m) = rw w
  erased c x (dropped s w f) = rw w
  erased c x (overdue s (inl w) f e) = rw w (ground arith)
  erased c x (overdue s (inr w) f e) = rw w

  pub unsent : (c : Client) (x : Bool) → Held c x → c.sends ≡ []
  unsent c x (waiting h s w f) = s
  unsent c x (answered p s w f m) = s
  unsent c x (dropped s w f) = s
  unsent c x (overdue s w f e) = s

  pub reply_matches :
      (c : Client) (x : Bool) {p : Bytes}
      → Held c x
      → future_at c.futures i ≡ result p
      → matches register flag p ≡ true
  reply_matches c x (waiting h s w f) e = cc
  reply_matches c x (answered q s w f m) e = ground arith
  reply_matches c x (dropped s w f) e = cc
  reply_matches c x (overdue s w f l) e = cc

  pub expired-Held : (c : Client) (x : Bool) → Held c x → Held c true
  expired-Held c x (waiting h s w f) = waiting h s w f
  expired-Held c x (answered p s w f m) = answered p s w f m
  expired-Held c x (dropped s w f) = dropped s w f
  expired-Held c x (overdue s w f e) = overdue s w f refl

  pub cancel-Held :
      (c : Client) (x : Bool)
      → Held c x
      → Held (record c { futures = settle c.futures i cancelled }) true
  cancel-Held c x (waiting h s w f) =
      overdue s (inl w) (settle_pending c.futures cancelled h f) refl
  cancel-Held c x (answered p s w f m) = answered p s w (unfold settle in ground arith) m
  cancel-Held c x (dropped s w f) = dropped s w (unfold settle in ground arith)
  cancel-Held c x (overdue s w f e) = overdue s w (unfold settle in ground arith) refl
