-- ===== src/Charger/Exchange/Answers.antt =====
-- The courses of a request that is answered.
use mathlib.Core.List.{append_assoc}
use spinev_ble.Base.{ℕ, ◌≡◌, refl, ap, true, false, List, [], ◌∷◌, ◌++◌, length, get_or, All, arith}
use spinev_ble.Base.Dict.{insert}
use spinev_ble.Errors.{Result, ok}
use spinev_ble.Models.{Bytes}
use spinev_ble.Charger.State.{pending, cancelled, Client}
use spinev_ble.Charger.State.Callbacks.{matches}
use spinev_ble.Charger.Exchange.{
  running, sent, Event, notify, send_done, expire, wake, delivering, replying, finished, Run,
  run_events, begin, exchange, outcome,
}
use spinev_ble.Charger.Exchange.Sound.{IsIdle, run_events-append, length-snoc, get_or-snoc}
use spinev_ble.Charger.Exchange.Outcomes.{
  noise, Waits, noise-Waits, finished_stays, answered_early, answered_held, sent-Waits,
  answered_late,
}

-- The reply comes before the end of the send, without or with a resumption between them, or after it.
pub data Course : Type 0 where
  before held behind : Course

-- The events of a course with a reply, behind some payloads `ps`, and some `qs` after the send.
abbrev pub answering : Course → Bytes → List Bytes → List Bytes → List Event
answering before p ps qs = noise ps ++ notify p ∷ send_done (ok tt) ∷ wake ∷ []
answering held p ps qs = noise ps ++ notify p ∷ wake ∷ send_done (ok tt) ∷ wake ∷ []
answering behind p ps qs =
    noise ps ++ ((send_done (ok tt) ∷ wake ∷ []) ++ (noise qs ++ notify p ∷ wake ∷ []))

module _ (frame : Bytes) (register : ℕ) (c : Client) (idle : IsIdle c) where
  begin-Waits :
      Waits register
        (length c.futures)
        (get_or frame 3 0)
        delivering
        running
        (begin frame register c)
  unfolding begin insert
  begin-Waits = record {
    at_phase = refl;
    with_send = refl;
    in_time = refl;
    bounded = omega (arith, length-snoc c.futures pending);
    waiter = rw (idle.0);
    unsent = idle.1;
    unsettled = get_or-snoc c.futures pending cancelled;
  }

  -- A course that ends a request fixes what it returns, whatever comes after.
  pub decided :
      (r : Result Bytes) (course rest : List Event)
      → (run_events register (length c.futures) (begin frame register c) course).phase ≡ finished r
      → (exchange true (course ++ rest) frame register c).0 ≡ r
  unfolding exchange
  decided r course rest h =
      rw
        (
          append_assoc course rest (expire ∷ wake ∷ []),
          run_events-append register (length c.futures) (begin frame register c) course,
        )
        (ap outcome (
          finished_stays register (length c.futures) (get_or frame 3 0) r
            (rest ++ expire ∷ wake ∷ [])
            (run_events register (length c.futures) (begin frame register c) course) h))

  pub after_noise :
      (r : Result Bytes) (ps : List Bytes) (course : List Event)
      → All (λ p. matches register (get_or frame 3 0) p ≡ false) ps
      → ((run : Run)
          → Waits register (length c.futures) (get_or frame 3 0) delivering running run
          → (run_events register (length c.futures) run course).phase ≡ finished r)
      → (run_events register (length c.futures) (begin frame register c) (noise ps ++ course)).phase
        ≡ finished r
  after_noise r ps course h k =
      rw run_events-append (k _ (noise-Waits register _ (get_or frame 3 0) ps _ h begin-Waits))

  -- The same, over a send that ends before the course begins.
  pub after_send :
      (r : Result Bytes) (qs : List Bytes) (course : List Event)
      → All (λ p. matches register (get_or frame 3 0) p ≡ false) qs
      → ((run : Run)
          → Waits register (length c.futures) (get_or frame 3 0) replying (sent (ok tt)) run
          → (run_events register (length c.futures) run course).phase ≡ finished r)
      → (run : Run) → Waits register (length c.futures) (get_or frame 3 0) delivering running run
      → (run_events register
          (length c.futures)
          run
          ((send_done (ok tt) ∷ wake ∷ []) ++ (noise qs ++ course))).phase
        ≡ finished r
  after_send r qs course h k run w =
      rw (run_events-append register (length c.futures) run (send_done (ok tt) ∷ wake ∷ [])) (
        rw run_events-append (
          k _ (
            noise-Waits register _ (get_or frame 3 0) qs _ h
              (sent-Waits register _ (get_or frame 3 0) run w))))

  -- A request of an idle client over a connected transport returns the reply with its register and
  -- flag when that reply comes before the send has ended, behind any payloads that do not match,
  -- and whatever happens after it returned.
  pub exchange_reply_early :
      (p : Bytes) (ps : List Bytes) (rest : List Event)
      → All (λ q. matches register (get_or frame 3 0) q ≡ false) ps
      → matches register (get_or frame 3 0) p ≡ true
      → (exchange true
          ((noise ps ++ notify p ∷ send_done (ok tt) ∷ wake ∷ []) ++ rest)
          frame
          register
          c).0
        ≡ ok p
  exchange_reply_early p ps rest h m =
      decided (ok p) _ rest
        (after_noise (ok p) ps _ h (λ run. answered_early register _ (get_or frame 3 0) p run m))

  -- A request of an idle client over a connected transport returns the reply with its register and
  -- flag when that reply comes after the send has ended, behind any payloads that do not match, and
  -- whatever happens after it returned.
  pub exchange_reply_late :
      (p : Bytes) (ps qs : List Bytes) (rest : List Event)
      → All (λ q. matches register (get_or frame 3 0) q ≡ false) ps
      → All (λ q. matches register (get_or frame 3 0) q ≡ false) qs
      → matches register (get_or frame 3 0) p ≡ true
      → (exchange true
          ((noise ps ++ ((send_done (ok tt) ∷ wake ∷ []) ++ (noise qs ++ notify p ∷ wake ∷ [])))
            ++ rest)
          frame
          register
          c).0
        ≡ ok p
  exchange_reply_late p ps qs rest h k m = decided (ok p) _ rest (
      after_noise (ok p) ps _ h
        (after_send (ok p) qs _ k (λ run. answered_late register _ (get_or frame 3 0) p run m)))

  exchange_reply_held :
      (p : Bytes) (ps : List Bytes) (rest : List Event)
      → All (λ q. matches register (get_or frame 3 0) q ≡ false) ps
      → matches register (get_or frame 3 0) p ≡ true
      → (exchange true
          ((noise ps ++ notify p ∷ wake ∷ send_done (ok tt) ∷ wake ∷ []) ++ rest)
          frame
          register
          c).0
        ≡ ok p
  exchange_reply_held p ps rest h m =
      decided (ok p) _ rest
        (after_noise (ok p) ps _ h (λ run. answered_held register _ (get_or frame 3 0) p run m))

  -- A request of an idle client over a connected transport returns the reply with its register and
  -- flag, behind any payloads that do not match, and whatever happens after it returned: when the reply
  -- comes before the end of a send that succeeds, whether or not the coroutine is resumed between the
  -- two, and when it comes after that end.
  pub exchange_answered :
      (course : Course) (p : Bytes) (ps qs : List Bytes) (rest : List Event)
      → All (λ q. matches register (get_or frame 3 0) q ≡ false) ps
      → All (λ q. matches register (get_or frame 3 0) q ≡ false) qs
      → matches register (get_or frame 3 0) p ≡ true
      → (exchange true (answering course p ps qs ++ rest) frame register c).0 ≡ ok p
  exchange_answered before p ps qs rest h k m = exchange_reply_early p ps rest h m
  exchange_answered held p ps qs rest h k m = exchange_reply_held p ps rest h m
  exchange_answered behind p ps qs rest h k m = exchange_reply_late p ps qs rest h k m
