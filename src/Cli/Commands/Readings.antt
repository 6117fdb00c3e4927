-- ===== src/Cli/Commands/Readings.antt =====
-- The command that reads the password and prints it, and what a command prints that reads something.
use spinev_ble.Base.{arith, suc, zero, ℕ, ◌≡◌, refl, sym, ap, ◌∙◌, some, List, [], ◌∷◌, ◌++◌}
use spinev_ble.Base.Int.{pos}
use spinev_ble.Errors.{ok}
use spinev_ble.Models.{Text}
use spinev_ble.Charger.Session.{M}
use spinev_ble.Charger.Control.{get_password}
use spinev_ble.Cli.{done, default_password}
use spinev_ble.Cli.Number.{int_literal, decimal, hex_six, digits_before, capital_digit}
use spinev_ble.Cli.Number.Printed.{
  hex_mark, int_literal-decimal, int_literal-hex_six, decimal_first,
}
use spinev_ble.Cli.Lines.{codes, password_lines}
use spinev_ble.Cli.Run.{
  Run, Surroundings, Args, print_lines, call, open_charger, within, ◌>>=◌, ◌>>◌,
}
use spinev_ble.Cli.Run.Rules.{
  within-Went, bind_done, call_done, opened_session, chosen_lines, open_charger_done,
}
use spinev_ble.Cli.Commands.{cmd_password}

module _ (fold : ℕ → ℕ) where
  -- A text with a first character, as the environment variable.
  variable_read :
      (s : Text) (c : ℕ) (t : Text) (n : ℕ)
      → s ≡ c ∷ t
      → int_literal fold s ≡ ok (pos n)
      → default_password (int_literal fold) (some s) ≡ done (some (pos n))
  variable_read s c t n e h =
      ap (λ s. default_password (int_literal fold) (some s)) e
      ∙ from_literal (ap (int_literal fold) (sym e) ∙ h)
    where
      from_literal :
          int_literal fold (c ∷ t) ≡ ok (pos n)
          → default_password (int_literal fold) (some (c ∷ t)) ≡ done (some (pos n))
      from_literal k = rw k refl

  decimal_read :
      (n : ℕ) → default_password (int_literal fold) (some (decimal n)) ≡ done (some (pos n))
  decimal_read zero =
      variable_read (decimal 0) b'0' [] 0 (unfold decimal digits_before capital_digit in refl)
        (int_literal-decimal fold 0)
  decimal_read (suc n) =
      let (c, t, e, _) = decimal_first (suc n) (omega arith) in
      variable_read (decimal (suc n)) c t (suc n) e (int_literal-decimal fold (suc n))

  hex_read :
      (n : ℕ)
      → default_password (int_literal fold) (some (hex_mark ++ hex_six n)) ≡ done (some (pos n))
  hex_read n =
      variable_read (hex_mark ++ hex_six n) b'0' (b'x' ∷ hex_six n) n refl
        (int_literal-hex_six fold n)

module _ {Link : Type 0} (env : Surroundings Link) (args : Args) where
  -- A method's answer on the new client, printed behind the choice of the charger.
  pub record Printed {A : Type 0} (m : M A) (lines : A → List Text) (r t : Run Link) : Type 0 where
    pub answer : A
    pub answered : (m (opened_session env args)).0 ≡ ok answer
    pub printed : t.printed ≡ (r.printed ++ chosen_lines env args) ++ lines answer

  printed_within :
      {A : Type 0} (m : M A) (lines : A → List Text) (r : Run Link)
      → ((within env (call m) >>= λ a. print_lines (lines a)) r).0 ≡ done tt
      → (a : A) × ((m r.session).0 ≡ ok a)
        × (((within env (call m) >>= λ a. print_lines (lines a)) r).1.printed
            ≡ r.printed ++ lines a)
  printed_within m lines r h =
      let (a, inside, e) = bind_done (within env (call m)) (λ a. print_lines (lines a)) r h in
      let went = within-Went env (call m) r a inside in
      (
        a,
        ap (λ s. (m s).0) (sym went.same_session) ∙ call_done m went.entered a went.ends,
        ap (λ p. p.1.printed) e ∙ ap (λ ls. ls ++ lines a) (went.printed_kept ∙ went.same_printed),
      )

  pub read_command :
      {A : Type 0} (m : M A) (lines : A → List Text) (r : Run Link)
      → let p = (open_charger env args >> (within env (call m) >>= λ a. print_lines (lines a))) r in
        p.0 ≡ done tt → Printed m lines r p.1
  read_command m lines r h =
      let next = within env (call m) >>= λ a. print_lines (lines a) in
      let (_, found, e) = bind_done (open_charger env args) (λ _. next) r h in
      let (session, printed) = open_charger_done env args r found in
      let (a, answered, lines_of) =
        printed_within m lines (open_charger env args r).1 (sym (ap (λ p. p.0) e) ∙ h) in
      record {
        answer = a;
        answered = ap (λ s. (m s).0) (sym session) ∙ answered;
        printed = ap (λ p. p.1.printed) e ∙ lines_of ∙ ap (λ ls. ls ++ lines a) printed;
      }

  -- The password round trip: when the password command ends well, what it printed behind the choice of
  -- the charger is "password HEX (DECIMAL)" and one more line, where each of the two texts HEX and
  -- DECIMAL is read back as the very password that the charger gave when it is passed in the environment
  -- variable.
  pub cmd_password_read_back :
      (fold : ℕ → ℕ) (r : Run Link)
      → (cmd_password env args r).0 ≡ done tt
      → (p : ℕ) × (in_hex : Text) × (in_decimal : Text) × (advice : Text) × ((get_password env.world
            (opened_session env args)).0
          ≡ ok p)
        × ((cmd_password env args r).1.printed
            ≡ (r.printed ++ chosen_lines env args)
              ++ (codes "password " ++ in_hex ++ codes " (" ++ in_decimal ++ codes ")")
                ∷ advice
                ∷ [])
        × (default_password (int_literal fold) (some in_hex) ≡ done (some (pos p)))
        × (default_password (int_literal fold) (some in_decimal) ≡ done (some (pos p)))
  unfolding cmd_password password_lines
  cmd_password_read_back fold r h =
      let printed = read_command (get_password env.world) password_lines r h in
      (
        printed.answer,
        hex_mark ++ hex_six printed.answer,
        decimal printed.answer,
        _,
        printed.answered,
        printed.printed,
        hex_read fold printed.answer,
        decimal_read fold printed.answer,
      )
