-- ===== src/Charger/Connect.antt =====
-- `async_connect`, `async_disconnect` and the `async with` block of `SpinEvCharger` in
-- src/spinev_ble/charger.py, over the operations of any transport, each with the transport's state.
pub mod Slot
use spinev_ble.Base.{Bool, true, false, if◌then◌else◌}
use spinev_ble.Errors.{SpinEvError, Exception, spinev, Result, ok, err, raise, connection_error}

-- The `except` clauses of `async_connect`.
abbrev pub connect_error : Exception → SpinEvError
connect_error (spinev e) = e
connect_error _ = connection_error

module _ {S : Type 0} where
  abbrev pub packaged : Result (Unit {0}) × S → Result (Unit {0}) × S
  packaged (ok _, s) = (ok tt, s)
  packaged (err e, s) = (raise (connect_error e), s)

  -- `async_connect`, with the transport's own.
  unfoldable pub open_link : (S → Bool) → (S → Result (Unit {0}) × S) → S → Result (Unit {0}) × S
  open_link connected connect s = if connected s then (ok tt, s) else packaged (connect s)

  -- `__aexit__` behind the outcome of the block: an error of the disconnect takes its place.
  abbrev pub leave : {A : Type 0} → (S → Result (Unit {0}) × S) → Result A × S → Result A × S
  leave disconnect (r, s) =
      let (left, s') = disconnect s in (elim left [ ok _ ↦ r | err e ↦ err e ], s')

  abbrev pub enter :
      {A : Type 0}
      → (S → Result (Unit {0}) × S)
      → (S → Result A × S)
      → Result (Unit {0}) × S
      → Result A × S
  enter disconnect block (ok _, s) = leave disconnect (block s)
  enter disconnect block (err e, s) = (err e, s)

  -- `async with charger: block`. A block that is not entered is not left.
  unfoldable pub with_charger :
      {A : Type 0}
      → (S → Bool)
      → (S → Result (Unit {0}) × S)
      → (S → Result (Unit {0}) × S)
      → (S → Result A × S)
      → S
      → Result A × S
  unfolding open_link
  with_charger connected connect disconnect block s =
      enter disconnect block (open_link connected connect s)
