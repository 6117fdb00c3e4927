-- ===== src/Charger/Exchange.antt =====
-- `_deliver` and `_exchange` of src/spinev_ble/charger.py: one request under the client's lock. The
-- event loop is a list of events: what the transport and the clock do while the coroutine is
-- suspended, and the moments at which the loop resumes it.
pub mod Held
pub mod Invariant
pub mod Sound
pub mod Outcomes
pub mod Answers
pub mod Fails
pub mod Ends
use spinev_ble.Base.{
  ℕ, Bool, true, false, Option, none, some, List, [], ◌∷◌, ◌++◌, length, get_or, set, if◌then◌else◌,
}
use mathlib.Core.List.{foldl}
use spinev_ble.Base.Dict.{insert, erase}
use spinev_ble.Errors.{
  SpinEvError, Exception, spinev, builtin_value_error, struct_error, builtin_timeout_error,
  other_exception, Result, ok, err, raise, connection_error, timeout_error,
}
use spinev_ble.Models.{Bytes}
use spinev_ble.Charger.State.{
  Future, pending, result, failed, cancelled, is_done, Client, future_at, on_notify, on_disconnect,
  settle,
}

-- The task that runs `transport.async_send(frame)`. A task that was asked to stop goes on until it ends.
pub data Send : Type 0 where
  running : Send
  sent : Result (Unit {0}) → Send
  cancelling : Send

-- `notify` and `drop` are the transport's callbacks, `send_done` ends the send task, `expire` is
-- the deadline of `asyncio.timeout`, and `wake` resumes the coroutine.
pub data Event : Type 0 where
  notify : Bytes → Event
  drop : Event
  send_done : Result (Unit {0}) → Event
  expire : Event
  wake : Event

-- Where the coroutine is suspended: at `asyncio.wait` or at `await send` in `_deliver`, at `await
-- future` behind it, or nowhere any more.
pub data Phase : Type 0 where
  delivering sending replying : Phase
  finished : Result Bytes → Phase

pub record Run : Type 0 where
  pub client : Client
  pub send : Send
  pub expired : Bool
  pub phase : Phase

-- What `_deliver` does when it is resumed: it is suspended again at a phase, it raises, or it
-- returns.
pub data Delivery : Type 0 where
  suspended : Phase → Delivery
  raised : Exception → Delivery
  delivered : Delivery

-- `await send`. While this is awaited only the deadline asks the send to stop, and the timeout block
-- turns the `CancelledError` that the deadline caused into a `TimeoutError`.
abbrev pub await_send : Send → Delivery
await_send running = suspended sending
await_send (sent (ok _)) = delivered
await_send (sent (err e)) = raised e
await_send cancelling = raised builtin_timeout_error

-- From `asyncio.wait` on.
abbrev pub deliver : Send → Future → Delivery
deliver running pending = suspended delivering
deliver running (failed e) = raised e
deliver running cancelled = raised builtin_timeout_error
deliver send abort = await_send send

-- The `except` clauses around the timeout block.
abbrev pub package_error : Exception → SpinEvError
package_error builtin_timeout_error = timeout_error
package_error (spinev e) = e
package_error _ = connection_error

-- The `finally` of `_deliver`, and the deadline at `await send`: the task is asked to stop.
abbrev pub cancel_send : Send → Send
cancel_send running = cancelling
cancel_send s = s

-- The send task ends once, also when it was asked to stop and ended by itself all the same.
abbrev pub end_send : Send → Result (Unit {0}) → Send
end_send (sent q) r = sent q
end_send _ r = sent r

-- The deadline at `await send` cancels the coroutine: that asks a send that runs to stop, and the
-- coroutine is resumed with what the send then ends with. It is cancelled itself when the send has ended
-- already.
abbrev pub cut_send : Send → Run → Run
cut_send running run = record run { send = cancelling }
cut_send _ run = record run { expired = true }

module _ (register future : ℕ) where
  -- The end of `_exchange`, with its `finally`.
  unfoldable pub finish : Result Bytes → Run → Run
  finish r run = record run {
    client = record (run.client) { waiters = erase register run.client.waiters };
    send = cancel_send run.send;
    phase = finished r;
  }

  -- `payload = await future`. Only the deadline cancels the future.
  unfoldable pub await_reply : Future → Run → Run
  unfolding finish
  await_reply pending run = record run { phase = replying }
  await_reply (result p) run = finish (ok p) run
  await_reply (failed e) run = finish (raise (package_error e)) run
  await_reply cancelled run = finish (raise timeout_error) run

  unfoldable pub continue : Delivery → Run → Run
  unfolding finish await_reply
  continue (suspended p) run = record run { phase = p }
  continue (raised e) run = finish (raise (package_error e)) run
  continue delivered run = await_reply (future_at run.client.futures future) run

  unfoldable pub resume : Phase → Run → Run
  unfolding continue await_reply
  resume delivering run = continue (deliver run.send (future_at run.client.futures future)) run
  resume sending run = continue (await_send run.send) run
  resume replying run = await_reply (future_at run.client.futures future) run
  resume (finished r) run = run

  -- The deadline cancels what the coroutine awaits, and the coroutine by its next resumption.
  unfoldable pub expire_at : Phase → Run → Run
  expire_at delivering run = record run { expired = true }
  expire_at sending run = cut_send run.send run
  expire_at replying run = record run {
    expired = true;
    client = record (run.client) { futures = settle run.client.futures future cancelled };
  }
  expire_at (finished r) run = run

  unfoldable pub wake_up : Phase → Run → Run
  unfolding finish resume
  wake_up (finished r) run = run
  wake_up p run = if run.expired then finish (raise timeout_error) run else resume p run

  unfoldable pub step : Run → Event → Run
  unfolding expire_at wake_up
  step run (notify p) = record run { client = on_notify p run.client }
  step run drop = record run { client = on_disconnect run.client }
  step run (send_done r) = record run { send = end_send run.send r }
  step run expire = expire_at run.phase run
  step run wake = wake_up run.phase run

  unfoldable pub run_events : Run → List Event → Run
  unfolding step
  run_events = foldl step

-- The beginning of `_exchange`, up to the first suspension.
unfoldable pub begin : Bytes → ℕ → Client → Run
begin frame register c = record {
  client = record c {
    futures = c.futures ++ pending ∷ [];
    waiters = insert register (length c.futures, get_or frame 3 0) c.waiters;
  };
  send = running;
  expired = false;
  phase = delivering;
}

-- The deadline comes in the end, whatever else happens.
abbrev pub with_deadline : List Event → List Event
with_deadline events = events ++ expire ∷ wake ∷ []

abbrev pub outcome : Phase → Result Bytes
outcome (finished r) = r
outcome _ = err other_exception

-- `_exchange` and `_request`, which only adds log lines. `connected` is the transport's property
-- when the call is made.
unfoldable pub exchange : Bool → List Event → Bytes → ℕ → Client → Result Bytes × Client
exchange connected events frame register c =
    let run =
      run_events register (length c.futures) (begin frame register c) (with_deadline events) in
    if connected then (outcome run.phase, run.client) else (raise connection_error, c)
