-- ===== src/Cli/Program.antt =====
-- `_build_parser` and `main` of src/spinev_ble/__main__.py: the arguments with their defaults, and the
-- command that they choose. How argparse splits the words of the command line is not modelled: an
-- argument says which options they give, or that argparse refuses them.
pub mod Closes
pub mod Misset
pub mod Exits
use spinev_ble.Base.{ℕ, Bool, true, false, Option, none, some}
use spinev_ble.Base.Int.{ℤ, pos}
use spinev_ble.Const.{default_history_count}
use spinev_ble.Float.{Floats}
use spinev_ble.Models.{Text}
use spinev_ble.Cli.{Ended, done, stopped, system_exit, Exit, main, parse_password, default_password}
use spinev_ble.Cli.Lines.{Formats}
use spinev_ble.Cli.Number.{int_literal}
use spinev_ble.Cli.Ocpp.{OcppArgs}
use spinev_ble.Cli.Run.{Run, Surroundings, Args, Command}
use spinev_ble.Cli.Commands.{cmd_password, run_control, cmd_scan, cmd_status, cmd_history, run_ocpp}

-- The subcommands with their options.
pub data Subcommand : Type 0 where
  scan password status start stop : Subcommand
  history : Option ℤ → Subcommand
  ocpp : OcppArgs → Subcommand

-- The options that the words give.
pub record Options : Type 0 where
  pub address : Option Text
  pub timeout : Option ℕ
  pub password : Option Text
  pub subcommand : Subcommand

-- `default=20.0`, in milliseconds.
abbrev pub default_timeout : ℕ
default_timeout = 20000

abbrev pub or_timeout : Option ℕ → ℕ
or_timeout none = default_timeout
or_timeout (some t) = t

abbrev pub or_count : Option ℤ → ℤ
or_count none = pos default_history_count
or_count (some n) = n

-- A password that cannot be read is a usage error.
abbrev read_password : Ended ℤ → Ended (Option ℤ)
read_password (done n) = done (some n)
read_password (stopped x) = stopped system_exit

module _ {Link : Type 0} (env : Surroundings Link) (floats : Floats)
    (formats : Formats floats.Float) (is_ip : Text → Bool) where
  -- `handlers[args.command](args)`
  unfoldable pub handler : Args → Subcommand → Command Link (Unit {0})
  handler args scan = cmd_scan env args floats formats
  handler args password = cmd_password env args
  handler args status = cmd_status env args floats formats
  handler args start = run_control env args true
  handler args stop = run_control env args false
  handler args (history count) = cmd_history env args floats formats (or_count count)
  handler args (ocpp options) = run_ocpp env args is_ip options

module _ (fold : ℕ → ℕ) where
  abbrev pub given_password : Option ℤ → Option Text → Ended (Option ℤ)
  given_password default none = done default
  given_password default (some s) = read_password (parse_password (int_literal fold s))

  abbrev pub with_password : Options → Ended (Option ℤ) → Ended Args
  with_password options (stopped x) = stopped x
  with_password options (done p) =
      done
        (record { address = options.address; timeout = or_timeout options.timeout; password = p })

  abbrev pub with_subcommand : Options → Ended Args → Ended (Args × Subcommand)
  with_subcommand options (stopped x) = stopped x
  with_subcommand options (done args) = done (args, options.subcommand)

  abbrev pub parse_options : Ended (Option ℤ) → Option Options → Ended (Args × Subcommand)
  parse_options (stopped x) words = stopped x
  parse_options (done default) none = stopped system_exit
  parse_options (done default) (some options) =
      with_subcommand options (with_password options (given_password default options.password))

  -- `_build_parser().parse_args(argv)`, with the environment variable.
  unfoldable pub arguments : Option Text → Option Options → Ended (Args × Subcommand)
  unfolding int_literal
  arguments variable words = parse_options (default_password (int_literal fold) variable) words

  module _ {Link : Type 0} (env : Surroundings Link) (floats : Floats)
      (formats : Formats floats.Float) (is_ip : Text → Bool) where
    abbrev pub run_command : Ended (Args × Subcommand) → Run Link → Exit × Run Link
    run_command (stopped x) r = (main {A = Unit {0}} (stopped x), r)
    run_command (done (args, c)) r =
        let (e, t) = handler env floats formats is_ip args c r in (main e, t)

    -- `main(argv)`
    unfoldable pub run_program : Option Text → Option Options → Run Link → Exit × Run Link
    unfolding arguments handler main
    run_program variable words = run_command (arguments variable words)
