-- ===== src/Cli/Find.antt =====
-- How the command line of src/spinev_ble/__main__.py finds the charger: `_scan`, `_resolve` and the
-- serial that `_cmd_scan` prints. What bleak discovers, or raises, is an argument, and `is_decimal` stands for
-- `\d` of Python's `re`, which takes the decimal digits of every script.
pub mod Serial
use spinev_ble.Base.{
  ℕ, zero, suc, Bool, true, false, not, ◌&&◌, ◌||◌, Option, none, some, List, [], ◌∷◌, ltb, leb,
  ◌==◌, if◌then◌else◌,
}
use spinev_ble.Models.{Text}
use spinev_ble.Protocol.Text.{strip}
use spinev_ble.Transport.Hex.{digit_value}
use spinev_ble.Errors.{Result, ok, err}
use spinev_ble.Cli.{Ended, done, stopped, raised, system_exit}

-- A discovered device of bleak.
pub record Device : Type 0 where
  pub address : Text
  pub name : Option Text

-- `[0-9a-fA-F]`
abbrev pub is_hex : ℕ → Bool
is_hex c = (leb 48 c && leb c 57) || (leb 97 c && leb c 102) || (leb 65 c && leb c 70)

-- `$` matches at the end, and before a line break at the end.
abbrev pub at_end : Text → Bool
at_end [] = true
at_end (c ∷ []) = c == 10
at_end (c ∷ d ∷ s) = false

-- `[0-9a-fA-F]{n}$`
unfoldable pub ends_hex : ℕ → Text → Bool
ends_hex zero s = at_end s
ends_hex (suc n) [] = false
ends_hex (suc n) (c ∷ s) = is_hex c && ends_hex n s

abbrev pub name_of : Device → Text
name_of d = elim d.name [ none ↦ [] | some s ↦ s ]

abbrev pub only_match : List (Device × Text) → Ended Device
only_match [] = stopped system_exit
only_match ((d, name) ∷ []) = done d
only_match (m ∷ n ∷ ms) = stopped system_exit

-- What looking for an address finds, where bleak may raise.
abbrev pub or_exit : Result (Option Device) → Ended Device
or_exit (err e) = stopped (raised e)
or_exit (ok none) = stopped system_exit
or_exit (ok (some d)) = done d

module _ (is_decimal : ℕ → Bool) where
  -- `\d{n}_[0-9a-fA-F]{4}$`
  unfoldable pub serial_matches : ℕ → Text → Bool
  serial_matches zero [] = false
  serial_matches zero (c ∷ s) = (c == b'_') && ends_hex 4 s
  serial_matches (suc n) [] = false
  serial_matches (suc n) (c ∷ s) = is_decimal c && serial_matches n s

  -- `_NAME_RE.match(name)`, with and without the space that may begin it.
  unfoldable pub name_matches : Text → Bool
  unfolding serial_matches ends_hex
  name_matches [] = false
  name_matches (c ∷ s) = ((c == b' ') && serial_matches 12 s) || serial_matches 12 (c ∷ s)

  -- `_scan`, on what was discovered.
  unfoldable pub scan : List Device → List (Device × Text)
  unfolding name_matches
  scan [] = []
  scan (d ∷ ds) =
      let rest = scan ds in if name_matches (name_of d) then (d, strip (name_of d)) ∷ rest else rest

  -- The matches of a discovery; there are none when bleak raises.
  abbrev pub matches_of : Result (List Device) → List (Device × Text)
  matches_of (ok ds) = scan ds
  matches_of (err e) = []

  -- The one match of a discovery, where bleak may raise.
  abbrev pub discovered_match : Result (List Device) → Ended Device
  discovered_match (ok ds) = only_match (scan ds)
  discovered_match (err e) = stopped (raised e)

  -- `_resolve`. `found` is the outcome of looking for an address, and `ds` that of the discovery.
  unfoldable pub resolve :
      Option Text → (Text → Result (Option Device)) → Result (List Device) → Ended Device
  unfolding scan
  resolve none found ds = discovered_match ds
  resolve (some []) found ds = discovered_match ds
  resolve (some (c ∷ s)) found ds = or_exit (found (c ∷ s))

-- `name.split("_")[0]`
unfoldable pub serial : Text → Text
serial [] = []
serial (c ∷ s) = let rest = serial s in if c == b'_' then [] else c ∷ rest
