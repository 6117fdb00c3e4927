-- ===== src/Cli/Lines/Spelled.antt =====
-- The names of the states and the list of the alarms, as src/spinev_ble/__main__.py prints them, spelled
-- out apart from the functions that print them.
use Prim.Native.String.{String}
use mathlib.Core.List.{foldl}
use spinev_ble.Base.{ℕ, ◌-◌, ◌≡◌, refl, sym, ap, ◌∙◌, List, [], ◌∷◌, ◌++◌, get_or}
use mathlib.Core.List.{append_assoc}
use spinev_ble.Const.States.{
  ChargerState, available, idle, starting, charging, fault, finishing, evse_suspended, ev_suspended,
  booting, unavailable, state_code,
}
use spinev_ble.Models.{Text}
use spinev_ble.Cli.Lines.{codes, state_name, join_commas, alarm_text}

-- The names of the states with the numbers 1 to 10.
abbrev pub names : List String
names =
    "AVAILABLE" ∷ "IDLE" ∷ "STARTING" ∷ "CHARGING" ∷ "FAULT" ∷ "FINISHING" ∷ "EVSE_SUSPENDED"
    ∷ "EV_SUSPENDED" ∷ "BOOTING" ∷ "UNAVAILABLE" ∷ []

abbrev pub name_at : ℕ → Text
name_at n = codes (get_or names (n - 1) "")

pub state_name_lem : (s : ChargerState) → state_name s ≡ name_at (state_code s)
unfolding state_code
state_name_lem available = refl
state_name_lem idle = refl
state_name_lem starting = refl
state_name_lem charging = refl
state_name_lem fault = refl
state_name_lem finishing = refl
state_name_lem evse_suspended = refl
state_name_lem ev_suspended = refl
state_name_lem booting = refl
state_name_lem unavailable = refl

-- Each alarm behind the first has a comma and a space before it.
abbrev pub add_alarm : Text → String → Text
add_alarm t s = t ++ codes ", " ++ codes s

abbrev pub listed : List String → Text
listed [] = codes "none"
listed (s ∷ ss) = foldl add_alarm (codes s) ss

joined_lem :
    (t : Text) (s : String) (ss : List String)
    → t ++ join_commas (s ∷ ss) ≡ foldl add_alarm (t ++ codes s) ss
unfolding join_commas
joined_lem t s [] = refl
joined_lem t s (u ∷ us) =
    sym (append_assoc t (codes s ++ codes ", ") (join_commas (u ∷ us)))
    ∙ ap (λ x. x ++ join_commas (u ∷ us)) (sym (append_assoc t (codes s) (codes ", ")))
    ∙ joined_lem ((t ++ codes s) ++ codes ", ") u us

pub alarm_text_lem : (ss : List String) → alarm_text ss ≡ listed ss
alarm_text_lem [] = refl
alarm_text_lem (s ∷ ss) = joined_lem [] s ss
