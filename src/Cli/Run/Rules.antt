-- ===== src/Cli/Run/Rules.antt =====
-- What the actions of a run leave as it is, and what a run that ends well went through.
use spinev_ble.Base.{◌≡◌, refl, ap, ◌∙◌, Bool, true, false, List, [], ◌++◌}
use spinev_ble.Errors.{Result, ok, err}
use spinev_ble.Models.{Text}
use spinev_ble.Charger.Connect.{with_charger, open_link, packaged, enter}
use spinev_ble.Charger.Session.{M, Session}
use spinev_ble.Charger.State.{new_client}
use spinev_ble.Cli.Find.{Device, matches_of, resolve}
use spinev_ble.Cli.{Ended, done, stopped}
use spinev_ble.Cli.Run.{
  Run, Surroundings, Args, Command, after, ◌>>=◌, print_lines, call, on_link, open_charger, opened,
  resolve_lines, value_of, within, from_block, from_result,
}

result_done : {A : Type 0} (q : Result A) (a : A) → from_result q ≡ done a → q ≡ ok a
result_done (ok b) a h = cc
result_done (err e) a h = cc

module _ {Link : Type 0} where
  -- A command that leaves the transport alone.
  pub record KeepsLink {A : Type 0} (m : Command Link A) : Type 0 where
    pub keeps : (r : Run Link) → (m r).1.link ≡ r.link

  after_keeps :
      {A B : Type 0} (next : A → Command Link B) (p : Ended A × Run Link)
      → ((a : A) → KeepsLink (next a))
      → (after next p).1.link ≡ p.1.link
  after_keeps next (done a, r) h = (h a).keeps r
  after_keeps next (stopped x, r) h = refl

  pub bind-KeepsLink :
      {A B : Type 0} (m : Command Link A) (next : A → Command Link B)
      → KeepsLink m
      → ((a : A) → KeepsLink (next a))
      → KeepsLink (m >>= next)
  bind-KeepsLink m next h k = record { keeps = λ r. after_keeps next (m r) k ∙ h.keeps r }

  pub call-KeepsLink : {A : Type 0} (m : M A) → KeepsLink (call m)
  call-KeepsLink m = record { keeps = λ r. refl }

  pub print-KeepsLink : (lines : List Text) → KeepsLink (print_lines lines)
  print-KeepsLink lines = record { keeps = λ r. refl }

  module _ (env : Surroundings Link) {A : Type 0} (block : Command Link A) where
    module _ (k : KeepsLink block) where
      within_entered :
          (r : Run Link) (q : Result (Unit {0}) × Link)
          → (enter
              (on_link env.disconnect)
              (λ r. let (e, t) = block r in (ok e, t))
              (packaged (q.0, record r { link = q.1 }))).1.link
            ≡ (enter env.disconnect (λ l. (ok tt, l)) (packaged q)).1
      within_entered r (ok _, l) = ap (λ l. (env.disconnect l).1) (k.keeps (record r { link = l }))
      within_entered r (err e, l) = refl

      within_connected :
          (r : Run Link) (b : Bool)
          → env.connected r.link ≡ b
          → (within env block r).1.link
            ≡ (with_charger env.connected env.connect env.disconnect (λ l. (ok tt, l)) r.link).1
      unfolding within with_charger open_link
      within_connected r true e = rw e (ap (λ l. (env.disconnect l).1) (k.keeps r))
      within_connected r false e = rw e (within_entered r (env.connect r.link))

      -- The block of a charger does to the transport what connecting and disconnecting do.
      pub within_link :
          (r : Run Link)
          → (within env block r).1.link
            ≡ (with_charger env.connected env.connect env.disconnect (λ l. (ok tt, l)) r.link).1
      within_link r = within_connected r (env.connected r.link) refl

    -- A run of the block between connecting and disconnecting, with what it returned.
    pub record Went (a : A) (r t : Run Link) : Type 0 where
      pub entered : Run Link
      pub same_session : entered.session ≡ r.session
      pub same_printed : entered.printed ≡ r.printed
      pub ends : (block entered).0 ≡ done a
      pub session_kept : t.session ≡ (block entered).1.session
      pub printed_kept : t.printed ≡ (block entered).1.printed

    left_done :
        (q : Result (Unit {0})) (e : Ended A) (a : A)
        → from_block (elim q [ ok _ ↦ ok e | err x ↦ err x ]) ≡ done a
        → e ≡ done a
    left_done (ok _) e a h = h
    left_done (err x) e a h = cc

    entered_runs :
        (r : Run Link) (q : Result (Unit {0}) × Link) (a : A)
        → from_block
            (enter
              (on_link env.disconnect)
              (λ r. let (e, t) = block r in (ok e, t))
              (packaged (q.0, record r { link = q.1 }))).0
          ≡ done a
        → Went a r
            (enter
              (on_link env.disconnect)
              (λ r. let (e, t) = block r in (ok e, t))
              (packaged (q.0, record r { link = q.1 }))).1
    entered_runs r (ok _, l) a h =
        let s = record r { link = l } in
        record {
          entered = s;
          same_session = refl;
          same_printed = refl;
          ends = left_done (env.disconnect (block s).1.link).0 (block s).0 a h;
          session_kept = refl;
          printed_kept = refl;
        }
    entered_runs r (err e, l) a h = cc

    connected_runs :
        (r : Run Link) (b : Bool) (a : A)
        → env.connected r.link ≡ b
        → (within env block r).0 ≡ done a
        → Went a r (within env block r).1
    unfolding within with_charger open_link
    connected_runs r true a e = rw e (λ h. record {
      entered = r;
      same_session = refl;
      same_printed = refl;
      ends = left_done (env.disconnect (block r).1.link).0 (block r).0 a h;
      session_kept = refl;
      printed_kept = refl;
    })
    connected_runs r false a e = rw e (entered_runs r (env.connect r.link) a)

    -- When an `async with` block ends well, its code ran to its end.
    pub within-Went :
        (r : Run Link) (a : A) → (within env block r).0 ≡ done a → Went a r (within env block r).1
    within-Went r a h = connected_runs r (env.connected r.link) a refl h

  after_done :
      {A B : Type 0} (next : A → Command Link B) (p : Ended A × Run Link) {b : B}
      → (after next p).0 ≡ done b
      → (a : A) × (p.0 ≡ done a) × (after next p ≡ next a p.1)
  after_done next (done a, r) h = (a, refl, refl)
  after_done next (stopped x, r) h = cc

  -- When two actions end well, so does the first, and the outcome is that of the second behind it.
  pub bind_done :
      {A B : Type 0} (m : Command Link A) (next : A → Command Link B) (r : Run Link) {b : B}
      → ((m >>= next) r).0 ≡ done b
      → (a : A) × ((m r).0 ≡ done a) × ((m >>= next) r ≡ next a (m r).1)
  bind_done m next r h = after_done next (m r) h

  pub call_done :
      {A : Type 0} (m : M A) (r : Run Link) (a : A) → (call m r).0 ≡ done a → (m r.session).0 ≡ ok a
  call_done m r a h = result_done (m r.session).0 a h

  module _ (env : Surroundings Link) (args : Args) where
    -- The client of a run that opened a charger.
    abbrev pub opened_session : Session
    opened_session = record { client = new_client (value_of args.password); handed = [] }

    abbrev pub chosen_lines : List Text
    chosen_lines = resolve_lines args.address (matches_of env.is_decimal env.discovered)

    opened_done :
        (x : Ended Device) (s : Run Link)
        → (opened env args x s).0 ≡ done tt
        → ((opened env args x s).1.session ≡ opened_session)
          × ((opened env args x s).1.printed ≡ s.printed)
    opened_done (stopped x) s h = cc
    opened_done (done d) s h = (refl, refl)

    -- `_open` prints what it chose, and makes a client that has sent nothing.
    pub open_charger_done :
        (r : Run Link)
        → (open_charger env args r).0 ≡ done tt
        → ((open_charger env args r).1.session ≡ opened_session)
          × ((open_charger env args r).1.printed ≡ r.printed ++ chosen_lines)
    unfolding open_charger
    open_charger_done r h =
        opened_done (resolve env.is_decimal args.address env.found env.discovered) _ h
