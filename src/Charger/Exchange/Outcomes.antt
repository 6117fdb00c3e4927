-- ===== src/Charger/Exchange/Outcomes.antt =====
-- The courses that a request can take, step by step: the reply may come before the send ends or
-- after it, the link may drop, the send may fail, and there may be no reply. Other payloads may
-- come at any time before.
use spinev_ble.Base.{ℕ, ◌<◌, ◌≡◌, true, false, List, [], ◌∷◌, map, length, arith, All}
use spinev_ble.Errors.{Exception, Result, ok, err, raise, connection_error, timeout_error}
use spinev_ble.Models.{Bytes}
use spinev_ble.Charger.State.{pending, result, future_at, disconnected}
use spinev_ble.Charger.State.Callbacks.{
  matches, one_waiter, on_notify_match, on_notify_other, on_notify_keeps, on_disconnect_one,
}
use spinev_ble.Charger.Exchange.{
  Send, running, sent, Event, notify, drop, send_done, expire, wake, Phase, delivering, sending,
  replying, finished, Run, package_error, step, run_events,
}
use spinev_ble.Charger.Exchange.Held.{settle_pending}
use spinev_ble.Charger.Exchange.Invariant.{is_open}

-- Payloads that are not the answer, as events.
abbrev pub noise : List Bytes → List Event
noise = map notify

module _ (register i flag : ℕ) where
  -- An open request that still waits, at a phase and with a state of its send.
  pub record Waits (phase : Phase) (send : Send) (run : Run) : Type 0 where
    pub at_phase : run.phase ≡ phase
    pub with_send : run.send ≡ send
    pub in_time : run.expired ≡ false
    pub bounded : i < length run.client.futures
    pub waiter : run.client.waiters ≡ one_waiter register i flag
    pub unsent : run.client.sends ≡ []
    pub unsettled : future_at run.client.futures i ≡ pending

  noise_step :
      {phase : Phase} {send : Send} (p : Bytes) (run : Run)
      → matches register flag p ≡ false
      → Waits phase send run
      → Waits phase send (step register i run (notify p))
  unfolding step
  noise_step p run m w =
      ground (arith, on_notify_other register i flag p run.client, on_notify_keeps p run.client)

  -- Payloads that do not match leave the request as it is.
  pub noise-Waits :
      {phase : Phase} {send : Send} (ps : List Bytes) (run : Run)
      → All (λ p. matches register flag p ≡ false) ps
      → Waits phase send run
      → Waits phase send (run_events register i run (noise ps))
  unfolding run_events
  noise-Waits [] run h w = w
  noise-Waits (p ∷ ps) run h w = noise-Waits ps _ h.1 (noise_step p run h.0 w)

  finished_step :
      (r : Result Bytes) (run : Run) (e : Event)
      → run.phase ≡ finished r
      → (step register i run e).phase ≡ finished r
  unfolding step
  finished_step r run (notify p) f = f
  finished_step r run drop f = f
  finished_step r run (send_done q) f = f
  finished_step r run expire f = ground arith
  finished_step r run wake f = ground arith

  -- The first end of a request is its result, whatever comes later.
  pub finished_stays :
      (r : Result Bytes) (events : List Event) (run : Run)
      → run.phase ≡ finished r
      → (run_events register i run events).phase ≡ finished r
  unfolding run_events
  finished_stays r [] run f = f
  finished_stays r (e ∷ events) run f = finished_stays r events _ (finished_step r run e f)

  -- Two or three steps from an open request to its end.
  pub answered_early :
      (p : Bytes) (run : Run)
      → matches register flag p ≡ true
      → Waits delivering running run
      → (run_events register i run (notify p ∷ send_done (ok tt) ∷ wake ∷ [])).phase
        ≡ finished (ok p)
  unfolding run_events step
  answered_early p run m w = ground (
    arith,
    on_notify_match register i flag p run.client w.waiter m,
    settle_pending register i flag run.client.futures (result p),
  )

  -- The coroutine is resumed between the reply and the end of the send, and awaits that end.
  pub answered_held :
      (p : Bytes) (run : Run)
      → matches register flag p ≡ true
      → Waits delivering running run
      → (run_events register i run (notify p ∷ wake ∷ send_done (ok tt) ∷ wake ∷ [])).phase
        ≡ finished (ok p)
  unfolding run_events step
  answered_held p run m w = ground (
    arith,
    on_notify_match register i flag p run.client w.waiter m,
    settle_pending register i flag run.client.futures (result p),
  )

  pub sent-Waits :
      (run : Run)
      → Waits delivering running run
      → Waits replying (sent (ok tt)) (run_events register i run (send_done (ok tt) ∷ wake ∷ []))
  unfolding run_events step
  sent-Waits run w = ground arith

  pub answered_late :
      (p : Bytes) (run : Run)
      → matches register flag p ≡ true
      → Waits replying (sent (ok tt)) run
      → (run_events register i run (notify p ∷ wake ∷ [])).phase ≡ finished (ok p)
  unfolding run_events step
  answered_late p run m w = ground (
    arith,
    on_notify_match register i flag p run.client w.waiter m,
    settle_pending register i flag run.client.futures (result p),
  )

  pub failed_send :
      (e : Exception) (run : Run)
      → Waits delivering running run
      → (run_events register i run (send_done (err e) ∷ wake ∷ [])).phase
        ≡ finished (raise (package_error e))
  unfolding run_events step
  failed_send e run w = ground arith

  pub dropped_early :
      (run : Run)
      → Waits delivering running run
      → (run_events register i run (drop ∷ wake ∷ [])).phase ≡ finished (raise connection_error)
  unfolding run_events step
  dropped_early run w = ground (
    arith,
    on_disconnect_one register i flag run.client w.waiter w.unsent,
    settle_pending register i flag run.client.futures disconnected,
  )

  pub dropped_late :
      (run : Run)
      → Waits replying (sent (ok tt)) run
      → (run_events register i run (drop ∷ wake ∷ [])).phase ≡ finished (raise connection_error)
  unfolding run_events step
  dropped_late run w = ground (
    arith,
    on_disconnect_one register i flag run.client w.waiter w.unsent,
    settle_pending register i flag run.client.futures disconnected,
  )

  pub silent :
      (phase : Phase) (send : Send) (run : Run)
      → is_open phase ≡ true
      → Waits phase send run
      → (run_events register i run (expire ∷ wake ∷ [])).phase ≡ finished (raise timeout_error)
  unfolding run_events step
  silent delivering send run o w = ground arith
  silent sending send run o w = ground arith
  silent replying send run o w = ground arith
  silent (finished r) send run o w = cc
