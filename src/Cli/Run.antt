-- ===== src/Cli/Run.antt =====
-- A run of the command line of src/spinev_ble/__main__.py: `_open`, the `async with` block around a
-- charger, and the actions that the commands are built from. A run keeps the transport, the client
-- with the frames that it sent, and the lines that were printed.
pub mod Rules
use spinev_ble.Base.{ℕ, Bool, Option, none, some, List, [], ◌∷◌, ◌++◌, map}
use spinev_ble.Base.Int.{ℤ}
use spinev_ble.Errors.{Exception, Result, ok, err}
use spinev_ble.Models.{Text}
use spinev_ble.Protocol.Control.{PyValue, int}
use spinev_ble.Charger.State.{new_client}
use spinev_ble.Charger.Session.{World, Session, M}
use spinev_ble.Charger.Connect.{with_charger}
use spinev_ble.Cli.{Stop, Ended, done, stopped, raised}
use spinev_ble.Cli.Find.{Device, matches_of, resolve}
use spinev_ble.Cli.Lines.{codes}

pub record Run (Link : Type 0) : Type 0 where
  pub link : Link
  pub session : Session
  pub printed : List Text

-- What surrounds a run: what bleak discovers, or the exception that it raises, the transport that is made for a device with its
-- operations, and the world of the frames.
pub record Surroundings (Link : Type 0) : Type 0 where
  pub is_decimal : ℕ → Bool
  pub discovered : Result (List Device)
  pub found : Text → Result (Option Device)
  pub make : Device → Link
  pub connected : Link → Bool
  pub connect : Link → Result (Unit {0}) × Link
  pub disconnect : Link → Result (Unit {0}) × Link
  pub world : World

-- The arguments that every command has. The timeout is in milliseconds.
pub record Args : Type 0 where
  pub address : Option Text
  pub timeout : ℕ
  pub password : Option ℤ

abbrev pub value_of : Option ℤ → Option PyValue
value_of none = none
value_of (some n) = some (int n)

abbrev device_line : Text → Device → Text → Text
device_line prefix d name = prefix ++ d.address ++ codes "  " ++ name

abbrev match_lines : List (Device × Text) → List Text
match_lines [] = []
match_lines ((d, name) ∷ []) = device_line (codes "using ") d name ∷ []
match_lines (m ∷ n ∷ ms) =
    codes "several chargers found, pass --address to pick one:"
    ∷ map (λ (d, name). device_line (codes "  ") d name) (m ∷ n ∷ ms)

-- What `_resolve` prints, from the matches that it chooses from.
unfoldable pub resolve_lines : Option Text → List (Device × Text) → List Text
resolve_lines none ms = match_lines ms
resolve_lines (some []) ms = match_lines ms
resolve_lines (some (c ∷ s)) ms = []

-- The exception that an outcome is.
abbrev pub from_result : {A : Type 0} → Result A → Ended A
from_result (ok a) = done a
from_result (err e) = stopped (raised e)

-- A block ends by returning or by any exception; only the disconnect's own error takes its place.
abbrev pub from_block : {A : Type 0} → Result (Ended A) → Ended A
from_block (ok e) = e
from_block (err e) = stopped (raised e)

abbrev pub Command : Type 0 → Type 0 → Type 0
Command Link A = Run Link → Ended A × Run Link

module _ {Link : Type 0} where
  abbrev pub after : {A B : Type 0} → (A → Command Link B) → Ended A × Run Link → Ended B × Run Link
  after next (done a, r) = next a r
  after next (stopped x, r) = (stopped x, r)

  infixl 5 ◌>>=◌ ◌>>◌
  abbrev pub ◌>>=◌ : {A B : Type 0} → Command Link A → (A → Command Link B) → Command Link B
  ◌>>=◌ m next r = after next (m r)

  abbrev pub ◌>>◌ : {A B : Type 0} → Command Link A → Command Link B → Command Link B
  m >> k = m >>= λ _. k

  abbrev pub print_lines : List Text → Command Link (Unit {0})
  print_lines lines r = (done tt, record r { printed = r.printed ++ lines })

  -- A call of another library.
  abbrev pub attempt : {A : Type 0} → Result A → Command Link A
  attempt q r = (from_result q, r)

  -- A method of the client.
  abbrev pub call : {A : Type 0} → M A → Command Link A
  call m r = let (q, s) = m r.session in (from_result q, record r { session = s })

  abbrev pub on_link : (Link → Result (Unit {0}) × Link) → Run Link → Result (Unit {0}) × Run Link
  on_link f r = let (q, l) = f r.link in (q, record r { link = l })

  module _ (env : Surroundings Link) where
    abbrev pub opened : Args → Ended Device → Command Link (Unit {0})
    opened args (stopped x) r = (stopped x, r)
    opened args (done d) r = (
      done tt,
      record r {
        link = env.make d;
        session = record { client = new_client (value_of args.password); handed = [] };
      },
    )

    -- `_open`
    unfoldable pub open_charger : Args → Command Link (Unit {0})
    unfolding resolve_lines
    open_charger args =
        print_lines (resolve_lines args.address (matches_of env.is_decimal env.discovered))
        >> opened args (resolve env.is_decimal args.address env.found env.discovered)

    -- `async with charger: block`
    unfoldable pub within : {A : Type 0} → Command Link A → Command Link A
    within block r =
        let (q, t) =
          with_charger (λ (r : Run Link). env.connected r.link) (on_link env.connect)
            (on_link env.disconnect) (λ r. let (e, t) = block r in (ok e, t)) r in
        (from_block q, t)
