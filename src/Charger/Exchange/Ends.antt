-- ===== src/Charger/Exchange/Ends.antt =====
-- The end of a request.
use spinev_ble.Base.{
  ℕ, ◌≡◌, refl, ap, ◌⊎◌, inl, inr, Bool, true, false, List, [], ◌∷◌, length, if◌then◌else◌,
}
use spinev_ble.Errors.{Result, ok, err, raise, timeout_error}
use spinev_ble.Models.{Bytes}
use spinev_ble.Charger.State.{Client, Future, future_at, pending, result, failed, cancelled}
use spinev_ble.Charger.Exchange.{
  Send, running, sent, cancelling, Event, notify, drop, send_done, expire, wake, Phase, delivering,
  sending, replying, finished, Run, Delivery, suspended, raised, delivered, deliver, await_send,
  finish, await_reply, continue, resume, expire_at, wake_up, step, package_error, run_events, begin,
  with_deadline, cancel_send, cut_send, end_send,
}
use spinev_ble.Charger.Exchange.Invariant.{is_open, deadline_ends}
use spinev_ble.Charger.Exchange.Outcomes.{finished_stays}
use spinev_ble.Charger.Exchange.Sound.{run_events-append}

-- The send task runs, and was not asked to stop.
abbrev pub is_left : Send → Bool
is_left running = true
is_left _ = false

module _ (register i : ℕ) where
  -- The request is open, or its send task has ended or was asked to stop.
  abbrev Stops : Run → Type 0
  Stops run = (is_open run.phase ≡ true) ⊎ (is_left run.send ≡ false)

  if-Stops : (b : Bool) (x y : Run) → Stops x → Stops y → Stops (if b then x else y)
  if-Stops true x y h k = h
  if-Stops false x y h k = k

  finish-Stops : (r : Result Bytes) (run : Run) → Stops (finish register i r run)
  unfolding finish
  finish-Stops r run = inr (ended run.send)
    where
      ended : (s : Send) → is_left (cancel_send s) ≡ false
      ended running = refl
      ended (sent r) = refl
      ended cancelling = refl

  await_reply-Stops : (f : Future) (run : Run) → Stops (await_reply register i f run)
  unfolding await_reply
  await_reply-Stops pending run = inl refl
  await_reply-Stops (result p) run = finish-Stops (ok p) run
  await_reply-Stops (failed e) run = finish-Stops (raise (package_error e)) run
  await_reply-Stops cancelled run = finish-Stops (raise timeout_error) run

  -- A delivery is suspended at an open phase.
  abbrev IsOpen : Delivery → Type 0
  IsOpen (suspended p) = is_open p ≡ true
  IsOpen _ = Unit

  await_send-IsOpen : (s : Send) → IsOpen (await_send s)
  await_send-IsOpen running = refl
  await_send-IsOpen (sent (ok _)) = tt
  await_send-IsOpen (sent (err e)) = tt
  await_send-IsOpen cancelling = tt

  deliver-IsOpen : (s : Send) (f : Future) → IsOpen (deliver s f)
  deliver-IsOpen running pending = refl
  deliver-IsOpen running (result p) = refl
  deliver-IsOpen running (failed e) = tt
  deliver-IsOpen running cancelled = tt
  deliver-IsOpen (sent r) f = await_send-IsOpen (sent r)
  deliver-IsOpen cancelling f = tt

  continue-Stops : (d : Delivery) (run : Run) → IsOpen d → Stops (continue register i d run)
  unfolding continue
  continue-Stops (suspended p) run h = inl h
  continue-Stops (raised e) run h = finish-Stops (raise (package_error e)) run
  continue-Stops delivered run h = await_reply-Stops (future_at run.client.futures i) run

  timed :
      (d : Delivery) (run : Run)
      → IsOpen d
      → Stops (
          if run.expired
          then finish register i (raise timeout_error) run
          else continue register i d run)
  timed d run h =
      if-Stops run.expired (finish register i (raise timeout_error) run) (continue register i d run)
        (finish-Stops (raise timeout_error) run) (continue-Stops d run h)

  wake-Stops :
      (p : Phase) (run : Run) → run.phase ≡ p → Stops run → Stops (wake_up register i p run)
  unfolding wake_up resume
  wake-Stops delivering run e h =
      let d = deliver run.send (future_at run.client.futures i) in
      timed d run (deliver-IsOpen run.send (future_at run.client.futures i))
  wake-Stops sending run e h = timed (await_send run.send) run (await_send-IsOpen run.send)
  wake-Stops replying run e h =
      let f = future_at run.client.futures i in
      if-Stops run.expired (finish register i (raise timeout_error) run)
        (await_reply register i f run) (finish-Stops (raise timeout_error) run)
        (await_reply-Stops f run)
  wake-Stops (finished r) run e h = h

  cut-Stops : (s : Send) (run : Run) → run.phase ≡ sending → Stops (cut_send s run)
  cut-Stops running run e = inl (ap is_open e)
  cut-Stops (sent r) run e = inl (ap is_open e)
  cut-Stops cancelling run e = inl (ap is_open e)

  expire-Stops :
      (p : Phase) (run : Run) → run.phase ≡ p → Stops run → Stops (expire_at register i p run)
  unfolding expire_at
  expire-Stops delivering run e h = h
  expire-Stops sending run e h = cut-Stops run.send run e
  expire-Stops replying run e h = h
  expire-Stops (finished r) run e h = h

  ended_send :
      (s : Send) (r : Result (Unit {0})) → is_left s ≡ false → is_left (end_send s r) ≡ false
  ended_send running r h = cc
  ended_send (sent q) r h = refl
  ended_send cancelling r h = refl

  step-Stops : (run : Run) (e : Event) → Stops run → Stops (step register i run e)
  unfolding step
  step-Stops run (notify p) h = h
  step-Stops run drop h = h
  step-Stops run (send_done r) (inl o) = inl o
  step-Stops run (send_done r) (inr d) = inr (ended_send run.send r d)
  step-Stops run expire h = expire-Stops run.phase run refl h
  step-Stops run wake h = wake-Stops run.phase run refl h

  run_events-Stops :
      (events : List Event) (run : Run) → Stops run → Stops (run_events register i run events)
  unfolding run_events
  run_events-Stops [] run h = h
  run_events-Stops (e ∷ events) run h =
      run_events-Stops events (step register i run e) (step-Stops run e h)

  closed_phase : (p : Phase) → is_open p ≡ false → (r : Result Bytes) × (p ≡ finished r)
  closed_phase (finished r) h = (r, refl)
  closed_phase delivering h = cc
  closed_phase sending h = cc
  closed_phase replying h = cc

  stopped_send : (run : Run) → is_open run.phase ≡ false → Stops run → is_left run.send ≡ false
  stopped_send run h (inl o) = cc
  stopped_send run h (inr d) = d

-- A request always ends. Whatever the transport does before the deadline, behind the deadline and one
-- resumption the coroutine has finished with a result, which no later event changes, and its send task
-- has ended or was asked to stop. When the deadline finds the coroutine awaiting its send, the resumption
-- is the one that comes when the send, asked to stop, has ended.
pub begin_finishes :
    (frame : Bytes) (register : ℕ) (c : Client) (events : List Event)
    → let run =
        run_events register (length c.futures) (begin frame register c) (with_deadline events) in
      (r : Result Bytes) × (run.phase ≡ finished r)
      × (is_left run.send ≡ false)
      × ((later : List Event)
          → (run_events register (length c.futures) run later).phase ≡ finished r)
begin_finishes frame register c events =
    let (r, e) = closed_phase register i run.phase closed in
    (
      r,
      e,
      stopped_send register i run closed
          (run_events-Stops register i (with_deadline events) (begin frame register c) starts),
      λ later. finished_stays register i 0 r later run e,
    )
  where
    i : ℕ
    i = length c.futures

    run : Run
    run = run_events register i (begin frame register c) (with_deadline events)

    starts : Stops register i (begin frame register c)
    starts = unfold begin in inl refl

    closed : is_open run.phase ≡ false
    closed = rw run_events-append (unfold run_events in deadline_ends register i 0 _ _ refl)
