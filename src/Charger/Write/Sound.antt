-- ===== src/Charger/Write/Sound.antt =====
-- The whole of `_send_frame`, over any list of events.
use spinev_ble.Base.{
  ℕ, ◌<◌, ◌≡◌, refl, Bool, true, false, List, [], ◌∷◌, ◌++◌, length, set, if◌then◌else◌, arith,
}
use spinev_ble.Errors.{is_spinev, Result, ok, err, raise, timeout_error}
use spinev_ble.Models.{Bytes}
use spinev_ble.Charger.State.{
  pending, cancelled, Client, future_at, disconnected, on_notify, on_disconnect, fail_waiters,
  fail_aborts,
}
use spinev_ble.Charger.State.Callbacks.{on_notify_idle, on_notify_keeps, on_disconnect_idle}
use spinev_ble.Charger.Exchange.{
  Send, running, sent, cancelling, Event, notify, drop, send_done, expire, wake, Phase, delivering,
  sending, replying, finished, Delivery, suspended, raised, delivered, package_error, with_deadline,
}
use spinev_ble.Charger.Exchange.Sound.{IsIdle, length-snoc, get_or-snoc}
use spinev_ble.Charger.Write.{
  Stage, opened, closed, Writing, discard, close, go_on, resume_write, expire_write, cut_write,
  wake_write, write_step, write_events, begin_write, write_outcome, send_frame,
}

-- Success or a package error.
abbrev pub IsPackaged : {A : Type 0} → Result A → Type 0
IsPackaged (ok a) = Unit
IsPackaged (err e) = is_spinev e ≡ true

-- With one write in flight and no request, a disconnect fails its abort future and empties the
-- client.
pub on_disconnect_write :
    (i : ℕ) (c : Client)
    → c.waiters ≡ []
    → c.sends ≡ i ∷ []
    → future_at c.futures i ≡ pending
    → on_disconnect c ≡ record c {
      futures = set c.futures i disconnected;
      waiters = [];
      sends = [];
      bulk_event = true;
    }
unfolding on_disconnect fail_waiters fail_aborts
on_disconnect_write i c w s f = ground arith

module _ (i : ℕ) where
  -- The abort future is pending and listed, or the link has dropped and nothing is listed.
  pub data Racing (c : Client) : Type 0 where
    racing :
        i < length c.futures
        → c.waiters ≡ []
        → c.sends ≡ i ∷ []
        → future_at c.futures i ≡ pending
        → Racing c
    lost : c.waiters ≡ [] → c.sends ≡ [] → Racing c

  notify-Racing : (p : Bytes) (c : Client) → Racing c → Racing (on_notify p c)
  notify-Racing p c (racing h w s f) =
      let (w', f') = on_notify_idle p c w in
      racing (rw f' h) w' (rw ((on_notify_keeps p c).0) s) (rw f' f)
  notify-Racing p c (lost w s) = lost (on_notify_idle p c w).0 (rw ((on_notify_keeps p c).0) s)

  drop-Racing : (c : Client) → Racing c → Racing (on_disconnect c)
  drop-Racing c (racing h w s f) = rw (on_disconnect_write i c w s f) (lost refl refl)
  drop-Racing c (lost w s) = rw (on_disconnect_idle c w s) (lost refl refl)

  discarded : (c : Client) → Racing c → (c.waiters ≡ []) × (discard i c.sends ≡ [])
  unfolding discard
  discarded c (racing h w s f) = (w, rw s (ground arith))
  discarded c (lost w s) = (w, rw s)

  data InWrite (w : Writing) : Type 0 where
    going : (p : Phase) → w.stage ≡ opened p → Racing w.client → InWrite w
    over : (r : Result (Unit {0})) → w.stage ≡ closed r → IsPackaged r → IsIdle w.client → InWrite w

  close-InWrite :
      (r : Result (Unit {0})) (w : Writing) → IsPackaged r → Racing w.client → InWrite (close i r w)
  unfolding close
  close-InWrite r w m h = over r refl m (discarded w.client h)

  go_on-InWrite : (d : Delivery) (w : Writing) → Racing w.client → InWrite (go_on i d w)
  unfolding go_on
  go_on-InWrite (suspended p) w h = going p refl h
  go_on-InWrite (raised e) w h = close-InWrite (raise (package_error e)) w refl h
  go_on-InWrite delivered w h = close-InWrite (ok tt) w tt h

  late_or_on :
      (late : Bool) (p : Phase) (w : Writing)
      → Racing w.client
      → InWrite (if late then close i (raise timeout_error) w else resume_write i p w)
  unfolding resume_write
  late_or_on true p w h = close-InWrite (raise timeout_error) w refl h
  late_or_on false delivering w h = go_on-InWrite _ w h
  late_or_on false sending w h = go_on-InWrite _ w h
  late_or_on false replying w h = go_on-InWrite _ w h
  late_or_on false (finished r) w h = go_on-InWrite _ w h

  wake_write-InWrite :
      (s : Stage) (w : Writing) → w.stage ≡ s → InWrite w → InWrite (wake_write i s w)
  unfolding wake_write
  wake_write-InWrite (closed r) w e f = f
  wake_write-InWrite (opened p) w e (going q g h) = late_or_on w.expired p w h
  wake_write-InWrite (opened p) w e (over r f m h) = cc

  cut-InWrite :
      (p : Phase) (s : Send) (w : Writing)
      → w.stage ≡ opened p
      → Racing w.client
      → InWrite (cut_write s w)
  cut-InWrite p running w e h = going p e h
  cut-InWrite p (sent r) w e h = going p e h
  cut-InWrite p cancelling w e h = going p e h

  expire_write-InWrite :
      (s : Stage) (w : Writing) → w.stage ≡ s → InWrite w → InWrite (expire_write i s w)
  unfolding expire_write
  expire_write-InWrite (closed r) w e f = f
  expire_write-InWrite (opened p) w e (over r f m h) = cc
  expire_write-InWrite (opened delivering) w e (going q g h) = going delivering e h
  expire_write-InWrite (opened sending) w e (going q g h) = cut-InWrite sending w.send w e h
  expire_write-InWrite (opened replying) w e (going q g h) = cut-InWrite replying w.send w e h
  expire_write-InWrite (opened (finished r)) w e (going q g h) =
      cut-InWrite (finished r) w.send w e h

  step-InWrite : (w : Writing) (e : Event) → InWrite w → InWrite (write_step i w e)
  unfolding write_step
  step-InWrite w (notify p) (going q g h) = going q g (notify-Racing p w.client h)
  step-InWrite w (notify p) (over r f m (a, b)) =
      over r f m ((on_notify_idle p w.client a).0, rw ((on_notify_keeps p w.client).0) b)
  step-InWrite w drop (going q g h) = going q g (drop-Racing w.client h)
  step-InWrite w drop (over r f m (a, b)) =
      rw (on_disconnect_idle w.client a b) (over r f m (refl, refl))
  step-InWrite w (send_done r) (going q g h) = going q g h
  step-InWrite w (send_done q) (over r f m h) = over r f m h
  step-InWrite w expire f = expire_write-InWrite w.stage w refl f
  step-InWrite w wake f = wake_write-InWrite w.stage w refl f

  events-InWrite : (es : List Event) (w : Writing) → InWrite w → InWrite (write_events i w es)
  unfolding write_events
  events-InWrite [] w f = f
  events-InWrite (e ∷ es) w f = events-InWrite es (write_step i w e) (step-InWrite w e f)

  write_events-append :
      (xs ys : List Event) (w : Writing)
      → write_events i w (xs ++ ys) ≡ write_events i (write_events i w xs) ys
  unfolding write_events
  write_events-append [] ys w = refl
  write_events-append (x ∷ xs) ys w = write_events-append xs ys (write_step i w x)

  abbrev is_closed : Stage → Bool
  is_closed (closed r) = true
  is_closed (opened p) = false

  cut_closes :
      (p : Phase) (s : Send) (w : Writing)
      → w.stage ≡ opened p
      → w.send ≡ s
      → is_closed (write_step i (write_step i w expire) wake).stage ≡ true
  unfolding write_step close go_on resume_write
  cut_closes delivering s w e f = ground arith
  cut_closes sending running w e f = ground arith
  cut_closes sending (sent r) w e f = ground arith
  cut_closes sending cancelling w e f = ground arith
  cut_closes replying running w e f = ground arith
  cut_closes replying (sent r) w e f = ground arith
  cut_closes replying cancelling w e f = ground arith
  cut_closes (finished r) running w e f = ground arith
  cut_closes (finished r) (sent q) w e f = ground arith
  cut_closes (finished r) cancelling w e f = ground arith

  deadline_closes :
      (s : Stage) (w : Writing)
      → w.stage ≡ s
      → is_closed (write_step i (write_step i w expire) wake).stage ≡ true
  unfolding write_step close
  deadline_closes (closed r) w e = ground arith
  deadline_closes (opened delivering) w e = ground arith
  deadline_closes (opened sending) w e = cut_closes sending w.send w e refl
  deadline_closes (opened replying) w e = cut_closes replying w.send w e refl
  deadline_closes (opened (finished r)) w e = cut_closes (finished r) w.send w e refl

module _ (c : Client) (idle : IsIdle c) where
  begin-InWrite : InWrite (length c.futures) (begin_write c)
  unfolding begin_write
  begin-InWrite = going delivering refl (
      racing (omega (arith, length-snoc c.futures pending)) idle.0 (rw (idle.1))
        (get_or-snoc c.futures pending cancelled))

  written :
      (w : Writing)
      → InWrite (length c.futures) w
      → is_closed (length c.futures) w.stage ≡ true
      → IsPackaged (write_outcome w.stage) × IsIdle w.client
  written w (going q g h) e = cc
  written w (over r f m h) e = (rw f m, h)

  -- Over any write an idle client becomes idle again, whatever the transport and the clock do, and
  -- the write succeeds or raises a package error.
  pub send_frame-IsPackaged :
      (events : List Event) → let (r, c') = send_frame events c in IsPackaged r × IsIdle c'
  unfolding send_frame
  send_frame-IsPackaged events =
      written _ (events-InWrite _ (with_deadline events) _ begin-InWrite) ends
    where
      ends :
          is_closed
            (length c.futures)
            (write_events (length c.futures) (begin_write c) (with_deadline events)).stage
          ≡ true
      ends = rw write_events-append (unfold write_events in deadline_closes _ _ _ refl)
