-- ===== src/Cli/Program/Misset.antt =====
-- A password that cannot be read, in the environment and on the command line.
use spinev_ble.Base.{Bool, ℕ, ◌≡◌, refl, ap, ◌∙◌, Option, none, some, ◌∷◌}
use spinev_ble.Errors.{err, builtin_value_error, other_exception}
use spinev_ble.Float.{Floats}
use spinev_ble.Models.{Text}
use spinev_ble.Cli.{stopped, raised, system_exit, passes, main, default_password}
use spinev_ble.Cli.Lines.{Formats}
use spinev_ble.Cli.Number.{int_literal}
use spinev_ble.Cli.Run.{Run, Surroundings}
use spinev_ble.Cli.Program.{
  Options, given_password, arguments, run_command, run_program, parse_options, with_subcommand,
  with_password,
}

module _ (fold : ℕ → ℕ) (c : ℕ) (s : Text)
    (bad : int_literal fold (c ∷ s) ≡ err builtin_value_error) where
  variable_fails :
      default_password (int_literal fold) (some (c ∷ s)) ≡ stopped (raised other_exception)
  variable_fails = rw bad refl

  option_fails : given_password fold none (some (c ∷ s)) ≡ stopped system_exit
  option_fails = rw bad refl

  -- A text that is not empty and not an integer is a usage error as the option --password, if the environment
  -- variable is not set, and a traceback of ArgumentTypeError as the environment variable, whatever the
  -- words of the command line are. In both cases the program does nothing else.
  pub run_program_misset :
      {Link : Type 0} (env : Surroundings Link) (floats : Floats) (formats : Formats floats.Float)
      (is_ip : Text → Bool) (words : Option Options) (options : Options) (r : Run Link)
      → options.password ≡ some (c ∷ s)
      → (run_program fold env floats formats is_ip (some (c ∷ s)) words r
          ≡ (passes (raised other_exception), r))
        × (run_program fold env floats formats is_ip none (some options) r
            ≡ (passes system_exit, r))
  unfolding run_program arguments main
  run_program_misset env floats formats is_ip words options r h = (
    ap (λ x. run_command fold env floats formats is_ip (parse_options fold x words) r)
        variable_fails,
    ap
        (λ x.
          run_command fold env floats formats is_ip
            (with_subcommand fold options (with_password fold options x)) r)
        (ap (given_password fold none) h ∙ option_fails),
  )
