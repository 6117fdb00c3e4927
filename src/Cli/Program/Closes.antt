-- ===== src/Cli/Program/Closes.antt =====
-- The whole program over Bluetooth, where the charger has one slot for a client.
use spinev_ble.Base.{
  ℕ, ◌≡◌, refl, sym, subst, ◌⊎◌, inl, inr, Bool, true, false, Option, List, [], ◌∷◌,
}
use spinev_ble.Errors.{Result, ok}
use spinev_ble.Float.{Floats}
use spinev_ble.Models.{Text}
use spinev_ble.Charger.Connect.{with_charger}
use spinev_ble.Charger.Connect.Slot.{
  Slot, slot_connected, slot_connect, slot_disconnect, opened, block_over_ble,
  block_over_ble-closes,
}
use spinev_ble.Charger.Session.{World}
use spinev_ble.Charger.Reads.{get_state}
use spinev_ble.Transport.Ble.{new_ble, is_connected}
use spinev_ble.Cli.{Ended, done, stopped}
use spinev_ble.Cli.Find.{Device, scan as list_matches, resolve}
use spinev_ble.Cli.Lines.{Formats, scan_lines}
use spinev_ble.Cli.Run.{
  Run, Surroundings, Args, Command, after, ◌>>=◌, ◌>>◌, print_lines, attempt, call, open_charger,
  within, opened as opened_by,
}
use spinev_ble.Cli.Run.Rules.{
  KeepsLink, bind-KeepsLink, call-KeepsLink, print-KeepsLink, within_link,
}
use spinev_ble.Cli.Commands.{
  cmd_password, control, sent_line, state_line, report_state, control_block, run_control, cmd_scan,
  cmd_status, cmd_history, run_ocpp,
}
use spinev_ble.Cli.Program.{
  Options, Subcommand, scan, password, status, start, stop, history, ocpp, arguments, handler,
  run_command, run_program,
}

-- What surrounds a run apart from the transport.
pub record Scene : Type 0 where
  pub is_decimal : ℕ → Bool
  pub discovered : Result (List Device)
  pub found : Text → Result (Option Device)
  pub world : World

module _ {F D : Type 0} (up : ℕ → Bool) (f : F) (d : D) (link : Result ℕ)
    (notified : ℕ → Result (Unit {0})) (scene : Scene) where
  abbrev pub fresh_slot : Slot F D
  fresh_slot = record { ble = new_ble; closed = [] }

  -- The Bluetooth transport, with the outcomes of opening the connection and of subscribing.
  abbrev pub over_ble : Surroundings (Slot F D)
  over_ble = record {
    is_decimal = scene.is_decimal;
    discovered = scene.discovered;
    found = scene.found;
    make = λ _. fresh_slot;
    connected = slot_connected up f d;
    connect = slot_connect up f d link notified;
    disconnect = slot_disconnect up f d;
    world = scene.world;
  }

  -- The clients that were opened are closed, and the transport is not connected.
  abbrev pub IsClosed : Slot F D → Type 0
  IsClosed s = (s.closed ≡ opened link) × (is_connected up s.ble ≡ false)

  released :
      (s : Slot F D)
      → s ≡ fresh_slot
      → IsClosed
          (with_charger
            (slot_connected up f d)
            (slot_connect up f d link notified)
            (slot_disconnect up f d)
            (λ l. (ok tt, l))
            s).1
  unfolding block_over_ble
  released s e =
      let (_, closed, down) =
        block_over_ble-closes up f d notified (λ _. ok tt) fresh_slot refl link in
      subst
        (λ l.
          IsClosed
            (with_charger (slot_connected up f d) (slot_connect up f d link notified)
              (slot_disconnect up f d) (λ l. (ok tt, l)) l).1)
        (sym e) (closed, down)

  within_closes :
      {A : Type 0} (block : Command (Slot F D) A) (r : Run (Slot F D))
      → KeepsLink block
      → r.link ≡ fresh_slot
      → IsClosed (within over_ble block r).1.link
  within_closes block r keeps e =
      subst IsClosed (sym (within_link over_ble block keeps r)) (released r.link e)

  -- The transport is as it was, for a device was not found or not asked for, or everything is closed.
  abbrev pub IsReleased : Run (Slot F D) → Run (Slot F D) → Type 0
  IsReleased r t = (t.link ≡ r.link) ⊎ IsClosed t.link

  by_device :
      (args : Args) (x : Ended Device) (next : Command (Slot F D) (Unit {0})) (r s : Run (Slot F D))
      → s.link ≡ r.link
      → ((t : Run (Slot F D)) → t.link ≡ fresh_slot → IsClosed (next t).1.link)
      → IsReleased r (after (λ _. next) (opened_by over_ble args x s)).1
  by_device args (stopped x) next r s e h = inl e
  by_device args (done d) next r s e h = inr (h _ refl)

  opening :
      (args : Args) (next : Command (Slot F D) (Unit {0})) (r : Run (Slot F D))
      → ((t : Run (Slot F D)) → t.link ≡ fresh_slot → IsClosed (next t).1.link)
      → IsReleased r ((open_charger over_ble args >> next) r).1
  unfolding open_charger
  opening args next r h =
      by_device args (resolve scene.is_decimal args.address scene.found scene.discovered) next r _
        refl h

  after_prints :
      {A : Type 0} (lines : A → List Text) (p : Ended A × Run (Slot F D))
      → (after (λ a. print_lines (lines a)) p).1.link ≡ p.1.link
  after_prints lines (done a, r) = refl
  after_prints lines (stopped x, r) = refl

  -- A command that opens a charger, runs a block and prints.
  block_command :
      {A : Type 0} (args : Args) (block : Command (Slot F D) A) (lines : A → List Text)
      (r : Run (Slot F D))
      → KeepsLink block
      → IsReleased r
          ((open_charger over_ble args >> (within over_ble block >>= λ a. print_lines (lines a)))
            r).1
  block_command args block lines r keeps = opening args _ r λ t e.
      subst IsClosed (sym (after_prints lines (within over_ble block t)))
        (within_closes block t keeps e)

  control-KeepsLink : (args : Args) (on : Bool) → KeepsLink (control_block over_ble args on)
  unfolding control_block
  control-KeepsLink args on =
      bind-KeepsLink (call (control over_ble args on)) _ (call-KeepsLink _) λ _.
        bind-KeepsLink (print_lines (sent_line over_ble args on ∷ []))
          (λ _. report_state over_ble args) (print-KeepsLink _)
          λ _.
            bind-KeepsLink (call (get_state scene.world))
              (λ state. print_lines (state_line over_ble args state ∷ [])) (call-KeepsLink _)
              λ _. print-KeepsLink _

  module _ (floats : Floats) (formats : Formats floats.Float) (is_ip : Text → Bool) where
    handler_releases :
        (args : Args) (c : Subcommand) (r : Run (Slot F D))
        → IsReleased r (handler over_ble floats formats is_ip args c r).1
    unfolding handler cmd_password run_control cmd_scan cmd_status cmd_history run_ocpp
    handler_releases args scan r = inl (
        after_prints (λ ds. scan_lines formats (list_matches scene.is_decimal ds))
          (attempt scene.discovered r))
    handler_releases args password r = block_command args _ _ r (call-KeepsLink _)
    handler_releases args status r = block_command args _ _ r (call-KeepsLink _)
    handler_releases args start r =
        opening args _ r λ t e. within_closes _ t (control-KeepsLink args true) e
    handler_releases args stop r =
        opening args _ r λ t e. within_closes _ t (control-KeepsLink args false) e
    handler_releases args (history count) r = block_command args _ _ r (call-KeepsLink _)
    handler_releases args (ocpp options) r = block_command args _ _ r (record { keeps = λ _. refl })

    run_command_releases :
        (fold : ℕ → ℕ) (x : Ended (Args × Subcommand)) (r : Run (Slot F D))
        → IsReleased r (run_command fold over_ble floats formats is_ip x r).1
    run_command_releases fold (stopped x) r = inl refl
    run_command_releases fold (done (args, c)) r = handler_releases args c r

    -- The command line over Bluetooth does not leave the charger's one slot taken, when it is not
    -- interrupted from outside. Whatever the arguments and the environment variable are, whether the
    -- connection or the subscription fails, whatever the charger answers and whether the command
    -- returns or raises, the program either never touches a transport, or every client that it opened
    -- is closed exactly once, no other is, and its transport is not connected.
    pub run_program-IsReleased :
        (fold : ℕ → ℕ) (variable : Option Text) (words : Option Options) (r : Run (Slot F D))
        → IsReleased r (run_program fold over_ble floats formats is_ip variable words r).1
    unfolding run_program
    run_program-IsReleased fold variable words r =
        run_command_releases fold (arguments fold variable words) r
