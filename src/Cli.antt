-- ===== src/Cli.antt =====
-- src/spinev_ble/__main__.py, the command line: how a command ends and the exit code it gives. The
-- children hold the commands that choose what to do.
pub mod Find
pub mod Ocpp
pub mod Number
pub mod Lines
pub mod Run
pub mod Commands
pub mod Program
use spinev_ble.Base.{ℕ, Option, none, some, List, [], ◌∷◌}
use spinev_ble.Base.Int.{ℤ}
use spinev_ble.Errors.{Exception, spinev, Result, ok, err, builtin_value_error, other_exception}
use spinev_ble.Models.{Text}

-- What ends a command early: `SystemExit`, Ctrl-C, or any other exception.
pub data Stop : Type 0 where
  system_exit interrupted : Stop
  raised : Exception → Stop

pub data Ended (A : Type 0) : Type 0 where
  done : A → Ended A
  stopped : Stop → Ended A

-- `main` returns an exit code, or lets an exception pass.
pub data Exit : Type 0 where
  returns : ℕ → Exit
  passes : Stop → Exit

unfoldable pub main : {A : Type 0} → Ended A → Exit
main (done a) = returns 0
main (stopped (raised (spinev e))) = returns 1
main (stopped interrupted) = returns 130
main (stopped system_exit) = passes system_exit
main (stopped (raised e)) = passes (raised e)

-- `_parse_password`, on what `int(value, 0)` does. The error is `ArgumentTypeError`.
abbrev pub parse_password : Result ℤ → Ended ℤ
parse_password (ok n) = done n
parse_password (err builtin_value_error) = stopped (raised other_exception)
parse_password (err e) = stopped (raised e)

abbrev known : Ended ℤ → Ended (Option ℤ)
known (done n) = done (some n)
known (stopped x) = stopped x

-- `_default_password`, on the environment variable.
abbrev pub default_password : (Text → Result ℤ) → Option Text → Ended (Option ℤ)
default_password int none = done none
default_password int (some []) = done none
default_password int (some (c ∷ s)) = known (parse_password (int (c ∷ s)))
