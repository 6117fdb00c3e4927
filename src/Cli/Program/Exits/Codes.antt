-- ===== src/Cli/Program/Exits/Codes.antt =====
-- The `ocpp` command, and the exit codes of all commands.
use spinev_ble.Base.{
  ℕ, ◌^◌, ◌<◌, ◌≡◌, refl, sym, subst, ◌⊎◌, inl, inr, Bool, true, false, Option, none, some, [], ◌∷◌,
  if◌then◌else◌,
}
use spinev_ble.Base.Int.{ℤ, pos}
use spinev_ble.Errors.{
  spinev, builtin_value_error, struct_error, builtin_timeout_error, other_exception, Result, ok,
  err,
}
use spinev_ble.Float.{Floats}
use spinev_ble.Models.{Text, OcppConfig}
use spinev_ble.Charger.Exchange.Sound.{IsIdle}
use spinev_ble.Charger.Write.Sound.{IsPackaged}
use spinev_ble.Charger.Session.{World, Session}
use spinev_ble.Charger.History.{get_history_of}
use spinev_ble.Charger.Reads.{get_ocpp_config}
use spinev_ble.Charger.Settings.Methods.{set_ocpp_config}
use spinev_ble.Charger.Calls.Packaged.{Packs}
use spinev_ble.Charger.Calls.Packaged.Reads.{get_status-Packs, get_password-Packs}
use spinev_ble.Charger.Calls.Packaged.Streams.{get_history-Packs, get_ocpp_config-Packs}
use spinev_ble.Charger.Calls.Packaged.Settings.{set_ocpp_config-Packs}
use spinev_ble.Cli.{Ended, done, stopped, raised, system_exit, interrupted, returns, passes, main}
use spinev_ble.Cli.Lines.{Formats}
use spinev_ble.Cli.Ocpp.{
  OcppArgs, OcppReport, or_current, same_config, unchanged, with_id, wanted_ocpp, end_write,
  write_wanted, point_to, behind_read, cmd_ocpp,
}
use spinev_ble.Cli.Run.{Run, Surroundings, Args, attempt}
use spinev_ble.Cli.Commands.{cmd_password, cmd_scan, cmd_status, cmd_history, ocpp_block, run_ocpp}
use spinev_ble.Cli.Program.{
  Subcommand, scan, password, status, start, stop, history, ocpp, or_count, handler,
}
use spinev_ble.Cli.Program.Exits.{
  IsExpected, Tidy, Finds, attempt-Tidy, bind-Tidy, print-Tidy, call-Tidy, block-Tidy,
  run_control-Tidy,
}

module _ (is_ip : Text → Bool) (w : World) (options : OcppArgs) where
  abbrev IsFine : Ended OcppReport × Session → Type 0
  IsFine p = IsExpected p.0 × IsIdle p.1.client

  end_write-IsFine :
      (current wanted : OcppConfig) (q : Result (Unit {0}) × Session)
      → IsPackaged q.0 × IsIdle q.1.client
      → IsFine (end_write is_ip w current wanted q)
  end_write-IsFine current wanted (ok _, t) h = (tt, h.1)
  end_write-IsFine current wanted (err e, t) h = h

  if_IsFine :
      (b : Bool) (p q : Ended OcppReport × Session)
      → IsFine p
      → IsFine q
      → IsFine (if b then p else q)
  if_IsFine true p q h k = h
  if_IsFine false p q h k = k

  write-IsFine :
      (current : OcppConfig) (x : Ended OcppConfig) (s : Session)
      → IsExpected x
      → IsIdle s.client
      → IsFine (write_wanted is_ip w current x s)
  write-IsFine current (stopped system_exit) s h i = (tt, i)
  write-IsFine current (stopped interrupted) s h i = (h, i)
  write-IsFine current (stopped (raised e)) s h i = (h, i)
  write-IsFine current (done wanted) s h i =
      if_IsFine (same_config wanted current) (done unchanged, s)
        (end_write is_ip w current wanted (set_ocpp_config w wanted true s)) (tt, i)
        (end_write-IsFine current wanted (set_ocpp_config w wanted true s)
          ((set_ocpp_config-Packs w wanted true).packs s i))

  with_id-IsExpected :
      (host : Text) (current : OcppConfig) (id : Text)
      → IsExpected (with_id is_ip options host current id)
  with_id-IsExpected host current [] = tt
  with_id-IsExpected host current (c ∷ s) = tt

  wanted-IsExpected :
      (host : Text) (current : OcppConfig) → IsExpected (wanted_ocpp is_ip options host current)
  unfolding wanted_ocpp
  wanted-IsExpected host current =
      with_id-IsExpected host current (or_current options.charge_point_id current.charge_point_id)

  point-IsFine :
      (o : Option Text) (current : OcppConfig) (s : Session)
      → IsIdle s.client
      → IsFine (point_to is_ip w options o current s)
  point-IsFine none current s i = (tt, i)
  point-IsFine (some host) current s i =
      write-IsFine current (wanted_ocpp is_ip options host current) s
        (wanted-IsExpected host current) i

  read-IsFine :
      (q : Result OcppConfig × Session)
      → IsPackaged q.0 × IsIdle q.1.client
      → IsFine (behind_read is_ip w options q)
  read-IsFine (ok current, s) h = point-IsFine options.host current s h.1
  read-IsFine (err e, s) h = h

  cmd_ocpp-IsFine : (s : Session) → IsIdle s.client → IsFine (cmd_ocpp is_ip w options s)
  unfolding cmd_ocpp
  cmd_ocpp-IsFine s i = read-IsFine (get_ocpp_config w s) ((get_ocpp_config-Packs w).packs s i)

-- A count of the history that four bytes hold; every other command has what it needs.
abbrev pub IsCounted : Subcommand → Type 0
IsCounted (history count) = (n : ℕ) × (or_count count ≡ pos n) × (n < 2 ^ 32)
IsCounted _ = Unit

module _ {Link : Type 0} (env : Surroundings Link) (floats : Floats)
    (formats : Formats floats.Float) (is_ip : Text → Bool)
    (disconnects : (l : Link) → IsPackaged (env.disconnect l).0) (finds : Finds env)
    (args : Args) where
  ocpp_block-Tidy : (options : OcppArgs) → Tidy (ocpp_block env args is_ip options)
  unfolding ocpp_block
  ocpp_block-Tidy options = record {
    tidies = λ r i. cmd_ocpp-IsFine is_ip env.world options r.session i;
  }

  history-Packs :
      (count : ℤ) (n : ℕ)
      → count ≡ pos n
      → n < 2 ^ 32
      → Packs (get_history_of env.world args.timeout count)
  unfolding get_history_of
  history-Packs count n e h =
      subst (λ c. Packs (get_history_of env.world args.timeout c)) (sym e)
        (get_history-Packs env.world args.timeout n h)

  handler-Tidy : (c : Subcommand) → IsCounted c → Tidy (handler env floats formats is_ip args c)
  unfolding handler cmd_password cmd_scan cmd_status cmd_history run_ocpp
  handler-Tidy scan h =
      bind-Tidy (attempt env.discovered) _ (attempt-Tidy env.discovered finds.0) λ _. print-Tidy _
  handler-Tidy password h =
      block-Tidy env disconnects finds args _ _ (call-Tidy _ (get_password-Packs env.world))
  handler-Tidy status h =
      block-Tidy env disconnects finds args _ _ (call-Tidy _ (get_status-Packs env.world floats))
  handler-Tidy start h = run_control-Tidy env disconnects finds args true
  handler-Tidy stop h = run_control-Tidy env disconnects finds args false
  handler-Tidy (history count) (n, e, small) =
      block-Tidy env disconnects finds args _ _
        (call-Tidy _ (history-Packs (or_count count) n e small))
  handler-Tidy (ocpp options) h =
      block-Tidy env disconnects finds args _ _ (ocpp_block-Tidy options)

  main_code :
      {A : Type 0} (x : Ended A)
      → IsExpected x
      → (main x ≡ returns 0) ⊎ ((main x ≡ returns 1) ⊎ (main x ≡ passes system_exit))
  unfolding main
  main_code (done a) h = inl refl
  main_code (stopped system_exit) h = inr (inr refl)
  main_code (stopped interrupted) h = absurd h
  main_code (stopped (raised (spinev e))) h = inr (inl refl)
  main_code (stopped (raised builtin_value_error)) h = cc
  main_code (stopped (raised struct_error)) h = cc
  main_code (stopped (raised builtin_timeout_error)) h = cc
  main_code (stopped (raised other_exception)) h = cc

  -- No command ends with a traceback, when discovering the charger, looking for its address and
  -- disconnecting raise no exception that is not the package's. From a client with nothing in flight,
  -- whatever the charger answers, whatever fails in connecting and in the requests and writes, and
  -- whatever the arguments are, a count of the history that four bytes do not hold apart, the exit code
  -- of the command is 0 or 1, or the tool exits by itself with a message.
  pub handler_exits :
      (c : Subcommand) (r : Run Link)
      → IsCounted c
      → IsIdle r.session.client
      → let x = main (handler env floats formats is_ip args c r).0 in
        (x ≡ returns 0) ⊎ ((x ≡ returns 1) ⊎ (x ≡ passes system_exit))
  handler_exits c r h i =
      main_code (handler env floats formats is_ip args c r).0 ((handler-Tidy c h).tidies r i).0
