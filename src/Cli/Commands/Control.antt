-- ===== src/Cli/Commands/Control.antt =====
-- The commands that start and stop charging, to the last line that they print.
use spinev_ble.Base.{
  ℕ, ◌+◌, ◌*◌, ◌^◌, ◌<◌, ◌≡◌, refl, sym, ap, subst, ◌∙◌, Bool, true, false, List, [], ◌∷◌, ◌++◌,
}
use spinev_ble.Base.Int.{pos}
use spinev_ble.Errors.{ok}
use spinev_ble.Const.Registers.{
  Command as Order, command_value, register_value, control as control_register,
  start as start_order, stop as stop_order,
}
use spinev_ble.Const.States.{ChargerState, state_code}
use spinev_ble.Protocol.Frames.Value.{be_bytes}
use spinev_ble.Protocol.Control.{int}
use spinev_ble.Protocol.Control.Echo.{control_frame}
use spinev_ble.Charger.Session.{Session, request}
use spinev_ble.Charger.Reads.{get_state}
use spinev_ble.Charger.Control.{require_password, send_control, start_charging, stop_charging}
use spinev_ble.Charger.Control.Commands.{send_control_echoed}
use spinev_ble.Models.{Text}
use spinev_ble.Cli.{done}
use spinev_ble.Cli.Lines.{codes, state_name}
use spinev_ble.Cli.Lines.Spelled.{name_at, state_name_lem}
use spinev_ble.Cli.Run.{Run, Surroundings, Args, print_lines, call, open_charger, within, ◌>>◌}
use spinev_ble.Cli.Run.Rules.{
  within-Went, bind_done, call_done, opened_session, chosen_lines, open_charger_done,
}
use spinev_ble.Cli.Commands.{
  control, sent_line, state_line, report_state, control_block, run_control,
}

abbrev pub order : Bool → Order
order true = start_order
order false = stop_order

-- The first line that the start command prints, and that of the stop command.
abbrev pub announced : Bool → Text
announced true = codes "start sent, waiting for the charger to settle"
announced false = codes "stop sent, waiting for the charger to settle"

module _ {Link : Type 0} (env : Surroundings Link) (args : Args) where
  pub announced_lem : (b : Bool) → sent_line env args b ≡ announced b
  announced_lem true = refl
  announced_lem false = refl

module _ {Link : Type 0} (env : Surroundings Link) (args : Args) (on : Bool) where
  -- What the block of the command does on a client, and the lines that it prints behind some others.
  pub record Reported (s : Session) (lines : List (List ℕ)) (t : Run Link) : Type 0 where
    pub state : ChargerState
    pub sent : (control env args on s).0 ≡ ok tt
    pub read : (get_state env.world (control env args on s).1).0 ≡ ok state
    pub printed :
        t.printed
        ≡ (lines ++ announced on ∷ []) ++ (codes "state now " ++ name_at (state_code state)) ∷ []

  block_reports :
      (r : Run Link)
      → (control_block env args on r).0 ≡ done tt
      → Reported r.session r.printed (control_block env args on r).1
  unfolding control_block
  block_reports r h =
      let (_, sent, e) =
        bind_done (call (control env args on))
          (λ _. print_lines (sent_line env args on ∷ []) >> report_state env args) r h in
      let h1 = sym (ap (λ p. p.0) e) ∙ h in
      let r1 = record ((call (control env args on) r).1) {
        printed = r.printed ++ sent_line env args on ∷ [];
      } in
      let (state, read, e1) =
        bind_done (call (get_state env.world))
          (λ state. print_lines (state_line env args state ∷ [])) r1 h1 in
      record {
        state = state;
        sent = call_done (control env args on) r tt sent;
        read = call_done (get_state env.world) r1 state read;
        printed =
            ap (λ p. p.1.printed) (e ∙ e1)
            ∙ ap (λ l. (r.printed ++ l ∷ []) ++ (codes "state now " ++ state_name state) ∷ [])
                (announced_lem env args on)
            ∙ ap (λ n. (r.printed ++ announced on ∷ []) ++ (codes "state now " ++ n) ∷ [])
                (state_name_lem state);
      }

  -- A client that had a password of three bytes, sent the order with it, and got it echoed.
  abbrev pub IsEchoed : Session → Type 0
  IsEchoed s =
      (p : ℕ) × (t : Session) × (flag : ℕ) × (p < 2 ^ 24)
      × (require_password env.world s ≡ (ok (int (pos p)), t))
      × ((request env.world (control_frame (order on) p) (register_value control_register) t).0
          ≡ ok (
              0x10
              ∷ 0xAC
              ∷ register_value control_register
              ∷ flag
              ∷ be_bytes (command_value (order on) * 2 ^ 24 + p)))

  pub control-order : (b : Bool) → control env args b ≡ send_control env.world (order b)
  unfolding start_charging stop_charging
  control-order true = refl
  control-order false = refl

  echoed : (s : Session) → (control env args on s).0 ≡ ok tt → IsEchoed s
  echoed s h =
      send_control_echoed env.world (order on) s (sym (ap (λ m. (m s).0) (control-order on)) ∙ h)

  moved :
      {s s' : Session} {lines lines' : List (List ℕ)} {t t' : Run Link}
      → s ≡ s'
      → lines ≡ lines'
      → t ≡ t'
      → Reported s lines t
      → Reported s' lines' t'
  moved {s' = s'} {lines = lines} {lines' = lines'} {t = t} e f g report =
      subst (λ (x : Run Link). Reported s' lines' x) g
        (subst (λ ls. Reported s' ls t) f (subst (λ (x : Session). Reported x lines t) e report))

  within-Reported :
      (r : Run Link)
      → (within env (control_block env args on) r).0 ≡ done tt
      → Reported r.session r.printed (within env (control_block env args on) r).1
  within-Reported r h =
      let went = within-Went env (control_block env args on) r tt h in
      let report = block_reports went.entered went.ends in
      subst (λ (s : Session). Reported s r.printed (within env (control_block env args on) r).1)
        went.same_session
        (record {
          state = report.state;
          sent = report.sent;
          read = report.read;
          printed =
              went.printed_kept
              ∙ report.printed
              ∙ ap
                  (λ ls.
                    (ls ++ announced on ∷ [])
                    ++ (codes "state now " ++ name_at (state_code report.state)) ∷ [])
                  went.same_printed;
        })

  -- The start and stop commands do not claim what did not happen: when one of them ends well, the new
  -- client had a password of three bytes, the charger echoed the control frame that was sent with it,
  -- and what was printed behind the choice of the charger is "start sent, waiting for the charger to
  -- settle", or the same with "stop", and "state now" with the name of the state that the charger
  -- reported after that.
  pub run_control_reports :
      (r : Run Link)
      → (run_control env args on r).0 ≡ done tt
      → IsEchoed (opened_session env args)
        × Reported
            (opened_session env args)
            (r.printed ++ chosen_lines env args)
            (run_control env args on r).1
  unfolding run_control
  run_control_reports r h =
      let (_, found, e) =
        bind_done (open_charger env args) (λ _. within env (control_block env args on)) r h in
      let (session, printed) = open_charger_done env args r found in
      let report = within-Reported (open_charger env args r).1 (sym (ap (λ p. p.0) e) ∙ h) in
      let report' = moved session printed (sym (ap (λ p. p.1) e)) report in
      (echoed _ report'.sent, report')
