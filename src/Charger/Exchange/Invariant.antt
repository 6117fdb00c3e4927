-- ===== src/Charger/Exchange/Invariant.antt =====
-- The invariant of a request between its start and its end, and the soundness of a result.
use spinev_ble.Base.{ℕ, ◌≡◌, refl, ◌∙◌, Bool, true, false, List, [], ◌∷◌, if◌then◌else◌, arith}
use spinev_ble.Errors.{is_spinev, Result, ok, err, raise, timeout_error}
use spinev_ble.Models.{Bytes}
use spinev_ble.Charger.State.{Future, pending, result, failed, cancelled, future_at}
use spinev_ble.Charger.State.Callbacks.{
  matches, on_notify_idle, on_notify_keeps, on_disconnect_idle,
}
use spinev_ble.Charger.Exchange.{
  Send, running, sent, cancelling, Event, notify, drop, send_done, expire, wake, Phase, delivering,
  sending, replying, finished, Run, deliver, await_send, package_error, finish, await_reply,
  continue, resume, expire_at, cut_send, wake_up, step, run_events, Delivery, suspended, raised,
  delivered,
}
use spinev_ble.Charger.Exchange.Held.{
  Held, notify-Held, drop-Held, erased, unsent, reply_matches, expired-Held, cancel-Held,
}

abbrev pub is_open : Phase → Bool
is_open (finished r) = false
is_open _ = true

-- A reply that was asked for, or a package error.
abbrev pub IsSound : ℕ → ℕ → Result Bytes → Type 0
IsSound register flag (ok p) = matches register flag p ≡ true
IsSound register flag (err e) = is_spinev e ≡ true

module _ (register i flag : ℕ) where
  -- A request is open and held, or it has ended soundly and left no waiter behind.
  pub data InFlight (run : Run) : Type 0 where
    going : is_open run.phase ≡ true → Held register i flag run.client run.expired → InFlight run
    over :
        (r : Result Bytes)
        → run.phase ≡ finished r
        → run.client.waiters ≡ []
        → run.client.sends ≡ []
        → IsSound register flag r
        → InFlight run

  notify-InFlight :
      (p : Bytes) (run : Run) → InFlight run → InFlight (step register i run (notify p))
  unfolding step
  notify-InFlight p run (going o h) =
      going o (notify-Held register i flag p run.client run.expired h)
  notify-InFlight p run (over r e w s m) =
      over r e (on_notify_idle p run.client w).0 ((on_notify_keeps p run.client).0 ∙ s) m

  drop-InFlight : (run : Run) → InFlight run → InFlight (step register i run drop)
  unfolding step
  drop-InFlight run (going o h) = going o (drop-Held register i flag run.client run.expired h)
  drop-InFlight run (over r e w s m) = rw (on_disconnect_idle run.client w s) (over r e refl refl m)

  -- `_exchange` ends by taking its waiter out.
  finish-InFlight :
      (r : Result Bytes) (run : Run)
      → IsSound register flag r
      → Held register i flag run.client run.expired
      → InFlight (finish register i r run)
  unfolding finish
  finish-InFlight r run m h =
      over r refl (erased register i flag run.client run.expired h)
        (unsent register i flag run.client run.expired h) m

  await_reply-InFlight :
      (run : Run) (f : Future)
      → future_at run.client.futures i ≡ f
      → Held register i flag run.client run.expired
      → InFlight (await_reply register i f run)
  unfolding await_reply
  await_reply-InFlight run pending e h = going refl h
  await_reply-InFlight run (result p) e h =
      finish-InFlight (ok p) run (reply_matches register i flag run.client run.expired h e) h
  await_reply-InFlight run (failed x) e h = finish-InFlight (raise (package_error x)) run refl h
  await_reply-InFlight run cancelled e h = finish-InFlight (raise timeout_error) run refl h

  -- `_deliver` is suspended before its end at most.
  abbrev StaysOpen : Delivery → Type 0
  StaysOpen (suspended p) = is_open p ≡ true
  StaysOpen _ = Unit

  continue-InFlight :
      (d : Delivery) (run : Run)
      → StaysOpen d
      → Held register i flag run.client run.expired
      → InFlight (continue register i d run)
  unfolding continue
  continue-InFlight (suspended p) run o h = going o h
  continue-InFlight (raised e) run o h = finish-InFlight (raise (package_error e)) run refl h
  continue-InFlight delivered run o h = await_reply-InFlight run _ refl h

  await_send-StaysOpen : (s : Send) → StaysOpen (await_send s)
  await_send-StaysOpen running = refl
  await_send-StaysOpen (sent (ok u)) = tt
  await_send-StaysOpen (sent (err e)) = tt
  await_send-StaysOpen cancelling = tt

  deliver-StaysOpen : (s : Send) (f : Future) → StaysOpen (deliver s f)
  deliver-StaysOpen running pending = refl
  deliver-StaysOpen running (result p) = refl
  deliver-StaysOpen running (failed e) = tt
  deliver-StaysOpen running cancelled = tt
  deliver-StaysOpen (sent r) f = await_send-StaysOpen (sent r)
  deliver-StaysOpen cancelling f = tt

  resume-InFlight :
      (p : Phase) (run : Run)
      → is_open p ≡ true
      → Held register i flag run.client run.expired
      → InFlight (resume register i p run)
  unfolding resume
  resume-InFlight delivering run o h =
      continue-InFlight _ run (deliver-StaysOpen run.send (future_at run.client.futures i)) h
  resume-InFlight sending run o h = continue-InFlight _ run (await_send-StaysOpen run.send) h
  resume-InFlight replying run o h = await_reply-InFlight run _ refl h
  resume-InFlight (finished r) run o h = cc

  -- An expired deadline ends the request, and nothing else is looked at.
  late_or_resumed :
      (late : Bool) (p : Phase) (run : Run)
      → is_open p ≡ true
      → Held register i flag run.client run.expired
      → InFlight
          (if late then finish register i (raise timeout_error) run else resume register i p run)
  late_or_resumed true p run o h = finish-InFlight (raise timeout_error) run refl h
  late_or_resumed false p run o h = resume-InFlight p run o h

  wake_up-InFlight :
      (p : Phase) (run : Run) → run.phase ≡ p → InFlight run → InFlight (wake_up register i p run)
  unfolding wake_up
  wake_up-InFlight (finished r) run e f = f
  wake_up-InFlight delivering run e (going o h) = late_or_resumed run.expired delivering run refl h
  wake_up-InFlight sending run e (going o h) = late_or_resumed run.expired sending run refl h
  wake_up-InFlight replying run e (going o h) = late_or_resumed run.expired replying run refl h
  wake_up-InFlight delivering run e (over r f w s m) = cc
  wake_up-InFlight sending run e (over r f w s m) = cc
  wake_up-InFlight replying run e (over r f w s m) = cc

  cut-InFlight :
      (s : Send) (run : Run)
      → is_open run.phase ≡ true
      → Held register i flag run.client run.expired
      → InFlight (cut_send s run)
  cut-InFlight running run o h = going o h
  cut-InFlight (sent r) run o h = going o (expired-Held register i flag _ _ h)
  cut-InFlight cancelling run o h = going o (expired-Held register i flag _ _ h)

  expire_at-InFlight :
      (p : Phase) (run : Run) → run.phase ≡ p → InFlight run → InFlight (expire_at register i p run)
  unfolding expire_at
  expire_at-InFlight (finished r) run e f = f
  expire_at-InFlight delivering run e (going o h) = going o (expired-Held register i flag _ _ h)
  expire_at-InFlight sending run e (going o h) = cut-InFlight run.send run o h
  expire_at-InFlight replying run e (going o h) = going o (cancel-Held register i flag _ _ h)
  expire_at-InFlight delivering run e (over r f w s m) = cc
  expire_at-InFlight sending run e (over r f w s m) = cc
  expire_at-InFlight replying run e (over r f w s m) = cc

  pub step-InFlight : (run : Run) (e : Event) → InFlight run → InFlight (step register i run e)
  unfolding step
  step-InFlight run (notify p) f = notify-InFlight p run f
  step-InFlight run drop f = drop-InFlight run f
  step-InFlight run (send_done r) (going o h) = going o h
  step-InFlight run (send_done r) (over q e w s m) = over q e w s m
  step-InFlight run expire f = expire_at-InFlight run.phase run refl f
  step-InFlight run wake f = wake_up-InFlight run.phase run refl f

  pub run_events-InFlight :
      (events : List Event) (run : Run) → InFlight run → InFlight (run_events register i run events)
  unfolding run_events
  run_events-InFlight [] run f = f
  run_events-InFlight (e ∷ events) run f =
      run_events-InFlight events (step register i run e) (step-InFlight run e f)

  cut_ends :
      (s : Send) (run : Run)
      → run.phase ≡ sending
      → run.send ≡ s
      → is_open (step register i (step register i run expire) wake).phase ≡ false
  unfolding step finish continue resume
  cut_ends running run e f = ground arith
  cut_ends (sent r) run e f = ground arith
  cut_ends cancelling run e f = ground arith

  -- The deadline and one resumption end any request.
  pub deadline_ends :
      (p : Phase) (run : Run)
      → run.phase ≡ p
      → is_open (step register i (step register i run expire) wake).phase ≡ false
  unfolding step finish
  deadline_ends delivering run e = ground arith
  deadline_ends sending run e = cut_ends run.send run e refl
  deadline_ends replying run e = ground arith
  deadline_ends (finished r) run e = ground arith
