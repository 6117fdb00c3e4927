-- ===== src/Transport/Ble.antt =====
-- `BleTransport` of src/spinev_ble/transports/ble.py: its state and its operations. bleak's clients
-- are numbers, `up` says which of them have a link, and the outcomes of the calls of bleak are
-- arguments. `async_connect` is in three parts, cut at its two calls.
pub mod Link
pub mod Failures
pub mod Radio
use spinev_ble.Base.{ℕ, Bool, true, false, Option, none, some, List, [], ◌∷◌, if◌then◌else◌}
use spinev_ble.Errors.{Result, ok, err, raise, ◌>>=◌, ◌>>◌, require, connection_error}
use spinev_ble.Models.{Bytes}
use spinev_ble.Transport.Contract.{Call, call_frame, call_disconnect}

pub record Ble (F D : Type 0) : Type 0 where
  pub client : Option ℕ
  pub on_frame : Option F
  pub on_disconnect : Option D

abbrev pub has_link : (ℕ → Bool) → Option ℕ → Bool
has_link up none = false
has_link up (some c) = up c

abbrev pub closing : Option ℕ → List ℕ
closing none = []
closing (some c) = c ∷ []

module _ {F D : Type 0} where
  -- `BleTransport(device)`
  abbrev pub new_ble : Ble F D
  new_ble = record { client = none; on_frame = none; on_disconnect = none }

  abbrev pub is_connected : (ℕ → Bool) → Ble F D → Bool
  is_connected up b = has_link up b.client

  -- `async_connect` up to `establish_connection`, when it is not connected.
  unfoldable pub keep_callbacks : F → D → Ble F D → Ble F D
  keep_callbacks f d b = record b { on_frame = some f; on_disconnect = some d }

  -- Behind `start_notify`, with the clients that are closed.
  unfoldable pub subscribed : ℕ → Result (Unit {0}) → Ble F D → Result (Unit {0}) × Ble F D × List ℕ
  subscribed c (ok _) b = (ok tt, record b { client = some c }, [])
  subscribed c (err e) b = (raise connection_error, b, c ∷ [])

  -- Behind `establish_connection`.
  unfoldable pub established :
      Result ℕ → (ℕ → Result (Unit {0})) → Ble F D → Result (Unit {0}) × Ble F D × List ℕ
  unfolding subscribed
  established (err e) notified b = (raise connection_error, b, [])
  established (ok c) notified b = subscribed c (notified c) b

  -- `async_connect`
  unfoldable pub connect :
      (ℕ → Bool)
      → F
      → D
      → Result ℕ
      → (ℕ → Result (Unit {0}))
      → Ble F D
      → Result (Unit {0}) × Ble F D × List ℕ
  unfolding established keep_callbacks
  connect up f d link notified b =
      if is_connected up b then (ok tt, b, []) else established link notified (keep_callbacks f d b)

  -- `async_disconnect`, with the client that is closed.
  unfoldable pub disconnect : Ble F D → Ble F D × List ℕ
  disconnect b = (record { client = none; on_frame = none; on_disconnect = none }, closing b.client)

  -- `async_send`, with the outcome of `write_gatt_char`.
  unfoldable pub send_written : (ℕ → Bool) → Ble F D → Result (Unit {0}) → Result (Unit {0})
  send_written up b written = do
    require (is_connected up b) connection_error
    elim written [ ok _ ↦ ok tt | err e ↦ raise connection_error ]

  unfoldable pub handle_disconnect : Ble F D → List (Call F D)
  handle_disconnect b = call_disconnect b.on_disconnect

  unfoldable pub handle_notify : Bytes → Ble F D → List (Call F D)
  handle_notify p b = call_frame b.on_frame p
