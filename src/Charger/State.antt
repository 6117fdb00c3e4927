-- ===== src/Charger/State.antt =====
-- The state of a `SpinEvCharger` of src/spinev_ble/charger.py, and the callbacks `_on_notify` and
-- `_on_disconnect`. Futures are shared between the client's dictionaries and the coroutine that
-- awaits them, so they live in a store, and a future is its index there.
pub mod Callbacks
use spinev_ble.Base.{
  ℕ, ◌+◌, Bool, true, false, ◌&&◌, Option, none, some, List, [], ◌∷◌, ◌++◌, map, length, get_or,
  all, has_name, all, has_name, set, ◌==◌, if◌then◌else◌,
}
use spinev_ble.Base.Dict.{Dict, lookup, insert, erase}
use Prim.Native.String.{String}
use spinev_ble.Errors.{
  Exception, spinev, connection_error, Result, ok, require, type_error, ◌>>=◌, ◌>>◌,
}
use spinev_ble.Models.{Bytes}
use spinev_ble.Protocol.Frames.{is_reply}
use spinev_ble.Protocol.History.{is_history_record}
use spinev_ble.Protocol.Control.{PyValue}

-- An `asyncio.Future`.
pub data Future : Type 0 where
  pending : Future
  result : Bytes → Future
  failed : Exception → Future
  cancelled : Future

abbrev pub is_done : Future → Bool
is_done pending = false
is_done (result p) = true
is_done (failed e) = true
is_done cancelled = true

-- `waiters` maps a register to the future of the request and the flag of its frame. `sends` holds
-- the abort futures of writes in progress. The lock, the timeout and the transport are not here:
-- the first is the order of the calls, the others are arguments of the runs.
pub record Client : Type 0 where
  pub password : Option PyValue
  pub futures : List Future
  pub waiters : Dict (ℕ × ℕ)
  pub sends : List ℕ
  pub bulk : List Bytes
  pub bulk_event : Bool

-- The state that `__init__` sets.
abbrev pub new_client : Option PyValue → Client
new_client password = record {
  password = password;
  futures = [];
  waiters = [];
  sends = [];
  bulk = [];
  bulk_event = false;
}

-- The members that `isinstance(transport, SpinEvTransport)` asks for.
abbrev pub transport_members : List String
transport_members = "is_connected" ∷ "async_connect" ∷ "async_disconnect" ∷ "async_send" ∷ []

-- `SpinEvCharger(transport, password=...)`, by the names of the transport's members.
unfoldable pub init_client : List String → Option PyValue → Result Client
init_client members password = do
  require (all (λ name. has_name name members) transport_members) type_error
  ok (new_client password)

-- The future with an index; one that was never made counts as cancelled.
abbrev pub future_at : List Future → ℕ → Future
future_at fs i = get_or fs i cancelled

-- `if not future.done(): future.set_result(...)`, or the same with an exception.
unfoldable pub settle : List Future → ℕ → Future → List Future
settle fs i f = if is_done (future_at fs i) then fs else set fs i f

abbrev pub disconnected : Future
disconnected = failed (spinev connection_error)

-- The first loop of `_on_disconnect`.
unfoldable pub fail_waiters : Dict (ℕ × ℕ) → List Future → List Future
unfolding settle
fail_waiters [] fs = fs
fail_waiters ((register, (i, flag)) ∷ d) fs = fail_waiters d (settle fs i disconnected)

-- The second loop. `set_exception` on a future that is done raises InvalidStateError, which ends
-- the callback: the Boolean says that this happened.
unfoldable pub fail_aborts : List ℕ → List Future → List Future × Bool
fail_aborts [] fs = (fs, false)
fail_aborts (i ∷ is) fs =
    let rest = fail_aborts is (set fs i disconnected) in
    if is_done (future_at fs i) then (fs, true) else rest

unfoldable pub on_disconnect : Client → Client
unfolding fail_waiters fail_aborts
on_disconnect c =
    let (fs, raised) = fail_aborts c.sends (fail_waiters c.waiters c.futures) in
    if raised
    then record c { futures = fs }
    else record c { futures = fs; waiters = []; sends = []; bulk_event = true }

-- The part of `_on_notify` for a register reply, with the waiter that its register has.
unfoldable pub answer : Bytes → Option (ℕ × ℕ) → Client → Client
unfolding settle
answer payload none c = c
answer payload (some (i, flag)) c =
    if get_or payload 3 0 == flag
    then record c {
      waiters = erase (get_or payload 2 0) c.waiters;
      futures = settle c.futures i (result payload);
    }
    else c

unfoldable pub on_notify : Bytes → Client → Client
unfolding answer
on_notify payload c =
    if is_history_record payload
    then record c { bulk = c.bulk ++ payload ∷ []; bulk_event = true }
    else if is_reply payload
    then answer payload (lookup (get_or payload 2 0) c.waiters) c
    else c
