-- ===== src/Cli/Commands.antt =====
-- The commands of src/spinev_ble/__main__.py, from the choice of the charger to the last line that is
-- printed.
pub mod Control
pub mod Readings
pub mod Status
use spinev_ble.Base.{ℕ, Bool, true, false, Option, none, some, List, [], ◌∷◌, ◌++◌, if◌then◌else◌}
use spinev_ble.Base.Int.{ℤ, pos, negsuc}
use spinev_ble.Errors.{Result, ok, err}
use spinev_ble.Const.{default_history_count}
use spinev_ble.Const.States.{ChargerState}
use spinev_ble.Float.{Floats}
use spinev_ble.Models.{Text, OcppConfig, ChargingSession}
use spinev_ble.Charger.Session.{World, Session, M}
use spinev_ble.Charger.Reads.{get_ocpp_config, get_status, get_state}
use spinev_ble.Charger.Control.{get_password, start_charging, stop_charging}
use spinev_ble.Charger.History.{get_history_of}
use spinev_ble.Cli.{Ended, done, stopped, system_exit, Exit, main, parse_password, default_password}
use spinev_ble.Cli.Find.{scan}
use spinev_ble.Cli.Lines.{
  Formats, codes, state_name, print_ocpp, password_lines, status_lines, history_lines, scan_lines,
}
use spinev_ble.Cli.Number.{int_literal}
use spinev_ble.Cli.Ocpp.{
  OcppArgs, OcppReport, shown, unchanged, written, same_config, wanted_ocpp, cmd_ocpp,
}
use spinev_ble.Cli.Run.{
  Run, Surroundings, Args, Command, print_lines, attempt, call, open_charger, within, ◌>>=◌, ◌>>◌,
}

module _ {Link : Type 0} (env : Surroundings Link) (args : Args) where
  unfoldable pub cmd_password : Command Link (Unit {0})
  unfolding open_charger within password_lines
  cmd_password = do
    open_charger env args
    password ← within env (call (get_password env.world))
    print_lines (password_lines password)

  -- "start" or "stop", and what it calls.
  abbrev pub action : Bool → Text
  action true = codes "start"
  action false = codes "stop"

  abbrev pub control : Bool → M (Unit {0})
  control true = start_charging env.world
  control false = stop_charging env.world

  abbrev pub sent_line : Bool → Text
  sent_line start = action start ++ codes " sent, waiting for the charger to settle"

  abbrev pub state_line : ChargerState → Text
  state_line state = codes "state now " ++ state_name state

  abbrev pub report_state : Command Link (Unit {0})
  report_state = do state ← call (get_state env.world); print_lines (state_line state ∷ [])

  -- The block of `_run_control`. Nothing is in flight in the pause between the two calls, and what the
  -- transport is behind it is for the world to say.
  unfoldable pub control_block : Bool → Command Link (Unit {0})
  control_block start = do call (control start); print_lines (sent_line start ∷ []); report_state

  -- `_run_control`, which is `_cmd_start` and `_cmd_stop`.
  unfoldable pub run_control : Bool → Command Link (Unit {0})
  unfolding open_charger within control_block
  run_control start = open_charger env args >> within env (control_block start)

  module _ (floats : Floats) (formats : Formats floats.Float) where
    unfoldable pub cmd_scan : Command Link (Unit {0})
    unfolding scan_lines
    cmd_scan = do
      devices ← attempt env.discovered
      print_lines (scan_lines formats (scan env.is_decimal devices))

    unfoldable pub cmd_status : Command Link (Unit {0})
    unfolding open_charger within status_lines
    cmd_status = do
      open_charger env args
      status ← within env (call (get_status env.world floats))
      print_lines (status_lines formats status)

    unfoldable pub cmd_history : ℤ → Command Link (Unit {0})
    unfolding open_charger within history_lines
    cmd_history count = do
      open_charger env args
      sessions ← within env (call (get_history_of env.world args.timeout count))
      print_lines (history_lines formats sessions)

  module _ (is_ip : Text → Bool) (options : OcppArgs) where
    -- What the block prints behind `_wanted_ocpp`.
    abbrev wanted_lines : OcppConfig → Ended OcppConfig → List Text
    wanted_lines current (stopped x) = []
    wanted_lines current (done wanted) =
        if same_config wanted current
        then codes "the charger already connects there, nothing to change" ∷ []
        else codes "current settings, note them to put them back later:" ∷ print_ocpp current

    abbrev current_lines : Option Text → OcppConfig → List Text
    current_lines none current = print_ocpp current
    current_lines (some host) current =
        wanted_lines current (wanted_ocpp is_ip options host current)

    -- What the block prints, by the outcome of its read.
    abbrev block_lines : Result OcppConfig → List Text
    block_lines (ok current) = current_lines options.host current
    block_lines (err e) = []

    -- The block of `_cmd_ocpp`: the settings are printed before they are written.
    unfoldable pub ocpp_block : Command Link OcppReport
    unfolding same_config wanted_ocpp print_ocpp
    ocpp_block r =
        let (e, s) = cmd_ocpp is_ip env.world options r.session in
        (
          e,
          record r {
            session = s;
            printed = r.printed ++ block_lines (get_ocpp_config env.world r.session).0;
          },
        )

    -- What is printed behind the block.
    unfoldable pub report_lines : OcppReport → List Text
    unfolding print_ocpp
    report_lines (written current wanted) =
        (10 ∷ codes "new settings written, the charger restarts to apply them:") ∷ print_ocpp wanted
    report_lines _ = []

    -- `_cmd_ocpp`, from the choice of the charger on.
    unfoldable pub run_ocpp : Command Link (Unit {0})
    unfolding open_charger within ocpp_block report_lines
    run_ocpp = do
      open_charger env args
      report ← within env ocpp_block
      print_lines (report_lines report)
