-- ===== src/Cli/Program/Exits.antt =====
-- How the commands of the program end.
pub mod Codes
use spinev_ble.Base.{
  ℕ, ◌≡◌, refl, sym, ap, subst, ◌∙◌, ◌⊎◌, inl, inr, Bool, true, false, Option, none, some, List, [],
  ◌∷◌, Bool-cases,
}
use spinev_ble.Errors.{
  SpinEvError, Exception, spinev, builtin_value_error, struct_error, builtin_timeout_error,
  other_exception, is_spinev, Result, ok, err, raise,
}
use spinev_ble.Float.{Floats}
use spinev_ble.Models.{Text}
use spinev_ble.Charger.State.{new_client}
use spinev_ble.Charger.Exchange.Sound.{IsIdle}
use spinev_ble.Charger.Write.Sound.{IsPackaged}
use spinev_ble.Charger.Connect.{with_charger, open_link, packaged, enter, leave, connect_error}
use spinev_ble.Charger.Session.{Session, M}
use spinev_ble.Charger.Reads.{get_state}
use spinev_ble.Const.Registers.{Command as Order}
use spinev_ble.Charger.Control.{send_control}
use spinev_ble.Charger.Calls.Packaged.{Packs}
use spinev_ble.Charger.Calls.Packaged.Reads.{get_state-Packs}
use spinev_ble.Charger.Calls.Packaged.Control.{send_control-Packs}
use spinev_ble.Cli.{
  Stop, Ended, done, stopped, raised, system_exit, interrupted, Exit, returns, passes, main,
}
use spinev_ble.Cli.Find.{Device, scan, resolve, only_match, discovered_match, or_exit}
use spinev_ble.Cli.Lines.{Formats}
use spinev_ble.Cli.Run.{
  Run, Surroundings, Args, Command, after, ◌>>=◌, ◌>>◌, print_lines, attempt, call, on_link,
  open_charger, within, opened, from_result, from_block,
}
use spinev_ble.Cli.Commands.{
  cmd_password, control, sent_line, state_line, report_state, control_block, run_control, cmd_scan,
  cmd_status,
}
use spinev_ble.Cli.Commands.Control.{order, control-order}
use spinev_ble.Cli.Program.{Subcommand, password, status, start, stop, handler}

-- The command ends by itself, by the tool's own exit, or by a package error.
abbrev pub IsExpected : {A : Type 0} → Ended A → Type 0
IsExpected (done a) = Unit
IsExpected (stopped system_exit) = Unit
IsExpected (stopped interrupted) = ⊥
IsExpected (stopped (raised e)) = is_spinev e ≡ true

result-IsExpected : {A : Type 0} (q : Result A) → IsPackaged q → IsExpected (from_result q)
result-IsExpected (ok a) h = tt
result-IsExpected (err e) h = h

module _ {Link : Type 0} where
  abbrev pub IsSettled : {A : Type 0} → Ended A × Run Link → Type 0
  IsSettled p = IsExpected p.0 × IsIdle p.1.session.client

  -- From a client with nothing in flight, a command ends as expected.
  pub record Tidy {A : Type 0} (m : Command Link A) : Type 0 where
    pub tidies : (r : Run Link) → IsIdle r.session.client → IsSettled (m r)

  after-IsSettled :
      {A B : Type 0} (next : A → Command Link B) (p : Ended A × Run Link)
      → IsSettled p
      → ((a : A) → Tidy (next a))
      → IsSettled (after next p)
  after-IsSettled next (done a, r) h k = (k a).tidies r h.1
  after-IsSettled next (stopped system_exit, r) h k = h
  after-IsSettled next (stopped interrupted, r) h k = h
  after-IsSettled next (stopped (raised e), r) h k = h

  pub bind-Tidy :
      {A B : Type 0} (m : Command Link A) (next : A → Command Link B)
      → Tidy m
      → ((a : A) → Tidy (next a))
      → Tidy (m >>= next)
  bind-Tidy m next h k = record { tidies = λ r i. after-IsSettled next (m r) (h.tidies r i) k }

  pub print-Tidy : (lines : List Text) → Tidy (print_lines lines)
  print-Tidy lines = record { tidies = λ r i. (tt, i) }

  pub call-Tidy : {A : Type 0} (m : M A) → Packs m → Tidy (call m)
  call-Tidy m h = record {
    tidies = λ r i. let (p, j) = h.packs r.session i in (result-IsExpected (m r.session).0 p, j);
  }

  -- Discovering and looking for an address raise no exception that is not the package's.
  abbrev pub Finds : Surroundings Link → Type 0
  Finds env = IsPackaged env.discovered × ((t : Text) → IsPackaged (env.found t))

  pub attempt-Tidy : {A : Type 0} (q : Result A) → IsPackaged q → Tidy (attempt q)
  attempt-Tidy q h = record { tidies = λ r i. (result-IsExpected q h, i) }

  module _ (env : Surroundings Link) (disconnects : (l : Link) → IsPackaged (env.disconnect l).0)
      (finds : Finds env) where
    left-IsExpected :
        {A : Type 0} (q : Result (Unit {0})) (e : Ended A)
        → IsPackaged q
        → IsExpected e
        → IsExpected (from_block (elim q [ ok _ ↦ ok e | err x ↦ err x ]))
    left-IsExpected (ok _) e h k = k
    left-IsExpected (err x) e h k = h

    module _ {A : Type 0} (block : Command Link A) (tidy : Tidy block) where
      left-IsSettled :
          (r : Run Link)
          → IsIdle r.session.client
          → let q = leave (on_link env.disconnect) (ok (block r).0, (block r).1) in
            IsSettled (from_block q.0, q.1)
      left-IsSettled r i =
          let (h, j) = tidy.tidies r i in
          (
            left-IsExpected (env.disconnect (block r).1.link).0 (block r).0
                (disconnects (block r).1.link) h,
            j,
          )

      connect_error_packaged : (e : Exception) → is_spinev (spinev (connect_error e)) ≡ true
      connect_error_packaged e = refl

      entered-IsSettled :
          (r : Run Link) (q : Result (Unit {0}) × Link)
          → IsIdle r.session.client
          → let p =
              enter
                (on_link env.disconnect)
                (λ r. let (e, t) = block r in (ok e, t))
                (packaged (q.0, record r { link = q.1 })) in
            IsSettled (from_block p.0, p.1)
      entered-IsSettled r (ok _, l) i = left-IsSettled (record r { link = l }) i
      entered-IsSettled r (err e, l) i = (refl, i)

      within-IsSettled :
          (r : Run Link) (b : Bool)
          → env.connected r.link ≡ b
          → IsIdle r.session.client
          → IsSettled (within env block r)
      unfolding within with_charger open_link
      within-IsSettled r true e i = rw e (left-IsSettled r i)
      within-IsSettled r false e i = rw e (entered-IsSettled r (env.connect r.link) i)

      within-Tidy : Tidy (within env block)
      within-Tidy = record { tidies = λ r i. within-IsSettled r (env.connected r.link) refl i }

    opened-IsSettled :
        (args : Args) (x : Ended Device) (r : Run Link)
        → IsExpected x
        → IsIdle r.session.client
        → IsSettled (opened env args x r)
    opened-IsSettled args (done d) r h i = (tt, (refl, refl))
    opened-IsSettled args (stopped system_exit) r h i = (tt, i)
    opened-IsSettled args (stopped interrupted) r h i = (h, i)
    opened-IsSettled args (stopped (raised e)) r h i = (h, i)

    only_match-IsExpected : (ms : List (Device × Text)) → IsExpected (only_match ms)
    only_match-IsExpected [] = tt
    only_match-IsExpected ((d, name) ∷ []) = tt
    only_match-IsExpected (m ∷ n ∷ ms) = tt

    or_exit-IsExpected : (o : Result (Option Device)) → IsPackaged o → IsExpected (or_exit o)
    or_exit-IsExpected (ok none) h = tt
    or_exit-IsExpected (ok (some d)) h = tt
    or_exit-IsExpected (err e) h = h

    discovered-IsExpected :
        (q : Result (List Device)) → IsPackaged q → IsExpected (discovered_match env.is_decimal q)
    discovered-IsExpected (ok ds) h = only_match-IsExpected (scan env.is_decimal ds)
    discovered-IsExpected (err e) h = h

    resolve-IsExpected :
        (o : Option Text) → IsExpected (resolve env.is_decimal o env.found env.discovered)
    unfolding resolve
    resolve-IsExpected none = discovered-IsExpected env.discovered finds.0
    resolve-IsExpected (some []) = discovered-IsExpected env.discovered finds.0
    resolve-IsExpected (some (c ∷ s)) = or_exit-IsExpected (env.found (c ∷ s)) (finds.1 (c ∷ s))

    pub open-Tidy : (args : Args) → Tidy (open_charger env args)
    unfolding open_charger
    open-Tidy args = record {
      tidies = λ r i. opened-IsSettled args _ _ (resolve-IsExpected args.address) i;
    }

    -- A command that opens a charger, runs a block and prints.
    pub block-Tidy :
        {A : Type 0} (args : Args) (block : Command Link A) (lines : A → List Text)
        → Tidy block
        → Tidy (open_charger env args >> (within env block >>= λ a. print_lines (lines a)))
    block-Tidy args block lines h =
        bind-Tidy (open_charger env args) (λ _. within env block >>= λ a. print_lines (lines a))
          (open-Tidy args)
          λ _.
            bind-Tidy (within env block) (λ a. print_lines (lines a)) (within-Tidy block h)
              λ a. print-Tidy (lines a)

    control-Packs : (args : Args) (on : Bool) → Packs (control env args on)
    control-Packs args on =
        subst Packs (sym (control-order env args on on)) (send_control-Packs env.world (order on))

    control_block-Tidy : (args : Args) (on : Bool) → Tidy (control_block env args on)
    unfolding control_block
    control_block-Tidy args on =
        bind-Tidy (call (control env args on))
          (λ _. print_lines (sent_line env args on ∷ []) >> report_state env args)
          (call-Tidy _ (control-Packs args on))
          λ _.
            bind-Tidy (print_lines (sent_line env args on ∷ [])) (λ _. report_state env args)
              (print-Tidy _)
              λ _.
                bind-Tidy (call (get_state env.world))
                  (λ state. print_lines (state_line env args state ∷ []))
                  (call-Tidy _ (get_state-Packs env.world)) λ _. print-Tidy _

    pub run_control-Tidy : (args : Args) (on : Bool) → Tidy (run_control env args on)
    unfolding run_control
    run_control-Tidy args on =
        bind-Tidy (open_charger env args) (λ _. within env (control_block env args on))
          (open-Tidy args) λ _. within-Tidy _ (control_block-Tidy args on)
