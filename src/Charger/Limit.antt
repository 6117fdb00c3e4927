-- ===== src/Charger/Limit.antt =====
-- `async_set_current_limit` of src/spinev_ble/charger.py.
pub mod Guards
use spinev_ble.Base.{ℕ, Bool, true, false, not, ◌&&◌}
use spinev_ble.Errors.{Result, require, value_error, busy_error}
use spinev_ble.Const.Registers.{register_value, current_limit}
use spinev_ble.Const.States.{is_session_open}
use spinev_ble.Float.{Floats}
use spinev_ble.Protocol.Frames.{build_write_float}
use spinev_ble.Charger.Session.{World, M, pure, lift, ◌>>=◌, ◌>>◌, request}
use spinev_ble.Charger.Reads.{get_state_value}
use spinev_ble.Charger.Settings.Methods.{commit_if}

module _ (w : World) where
  -- The check of the state, which `allow_while_charging` skips.
  unfoldable pub check_no_session : Bool → M (Unit {0})
  check_no_session true = pure tt
  check_no_session false = do
    v ← get_state_value w
    lift (require (not (is_session_open v)) busy_error)

  -- Behind the checks.
  unfoldable pub write_limit : (f : Floats) → f.Float → Bool → M (Unit {0})
  write_limit f amps is_committed = do
    frame ← lift (build_write_float f (register_value current_limit) amps)
    request w frame (register_value current_limit)
    commit_if w is_committed

  unfoldable pub set_current_limit : (f : Floats) → f.Float → f.Float → Bool → Bool → M (Unit {0})
  set_current_limit f amps max_amps is_committed allow_while_charging = do
    lift (require (f.leb f.min_current amps && f.leb amps max_amps) value_error)
    check_no_session allow_while_charging
    write_limit f amps is_committed
