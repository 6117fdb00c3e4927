-- ===== src/Charger/Write.antt =====
-- `_send_frame` of src/spinev_ble/charger.py: a frame that waits for no reply. The transport's
-- `async_send` is raced against a future that only a disconnect completes. `_send` adds log lines.
pub mod Sound
pub mod Answers
use mathlib.Core.List.{foldl}
use spinev_ble.Base.{ℕ, Bool, true, false, List, [], ◌∷◌, ◌++◌, length, ◌==◌, if◌then◌else◌}
use spinev_ble.Errors.{
  Exception, Result, ok, err, raise, timeout_error, connection_error, other_exception,
}
use spinev_ble.Charger.State.{pending, Client, future_at, on_notify, on_disconnect}
use spinev_ble.Charger.Exchange.{
  Send, running, cancelling, Event, notify, drop, send_done, expire, wake, Phase, delivering,
  sending, replying, finished, Delivery, suspended, raised, delivered, await_send, deliver,
  cancel_send, package_error, end_send, with_deadline,
}

-- Where the coroutine is: suspended in `_deliver`, or at its end.
pub data Stage : Type 0 where
  opened : Phase → Stage
  closed : Result (Unit {0}) → Stage

pub record Writing : Type 0 where
  pub client : Client
  pub send : Send
  pub expired : Bool
  pub stage : Stage

-- `self._sends.discard(abort)`
unfoldable pub discard : ℕ → List ℕ → List ℕ
discard i [] = []
discard i (j ∷ js) = let rest = discard i js in if i == j then rest else j ∷ rest

-- The deadline at `await send`, as for a request.
abbrev pub cut_write : Send → Writing → Writing
cut_write running w = record w { send = cancelling }
cut_write _ w = record w { expired = true }

module _ (abort : ℕ) where
  -- The end of `_send_frame`, with both its `finally` and that of `_deliver`.
  unfoldable pub close : Result (Unit {0}) → Writing → Writing
  unfolding discard
  close r w = record w {
    client = record (w.client) { sends = discard abort w.client.sends };
    send = cancel_send w.send;
    stage = closed r;
  }

  unfoldable pub go_on : Delivery → Writing → Writing
  unfolding close
  go_on (suspended p) w = record w { stage = opened p }
  go_on (raised e) w = close (raise (package_error e)) w
  go_on delivered w = close (ok tt) w

  unfoldable pub resume_write : Phase → Writing → Writing
  unfolding go_on
  resume_write delivering w = go_on (deliver w.send (future_at w.client.futures abort)) w
  resume_write p w = go_on (await_send w.send) w

  unfoldable pub expire_write : Stage → Writing → Writing
  expire_write (closed r) w = w
  expire_write (opened delivering) w = record w { expired = true }
  expire_write (opened p) w = cut_write w.send w

  unfoldable pub wake_write : Stage → Writing → Writing
  unfolding close resume_write
  wake_write (closed r) w = w
  wake_write (opened p) w = if w.expired then close (raise timeout_error) w else resume_write p w

  unfoldable pub write_step : Writing → Event → Writing
  unfolding expire_write wake_write
  write_step w (notify p) = record w { client = on_notify p w.client }
  write_step w drop = record w { client = on_disconnect w.client }
  write_step w (send_done r) = record w { send = end_send w.send r }
  write_step w expire = expire_write w.stage w
  write_step w wake = wake_write w.stage w

  unfoldable pub write_events : Writing → List Event → Writing
  unfolding write_step
  write_events = foldl write_step

-- The beginning of `_send_frame`, up to the first suspension.
unfoldable pub begin_write : Client → Writing
begin_write c = record {
  client = record c { futures = c.futures ++ pending ∷ []; sends = length c.futures ∷ c.sends };
  send = running;
  expired = false;
  stage = opened delivering;
}

abbrev pub write_outcome : Stage → Result (Unit {0})
write_outcome (closed r) = r
write_outcome (opened p) = err other_exception

unfoldable pub send_frame : List Event → Client → Result (Unit {0}) × Client
send_frame events c =
    let w = write_events (length c.futures) (begin_write c) (with_deadline events) in
    (write_outcome w.stage, w.client)
