-- ===== src/Const/States.antt =====
-- `ChargerState` of src/spinev_ble/const.py with its properties, and the states in which
-- src/spinev_ble/charger.py holds a session to be open.
pub mod Laws
use spinev_ble.Base.{
  ℕ, Bool, true, false, Option, none, some, List, [], ◌∷◌, ◌==◌, if◌then◌else◌, ◌||◌,
}

pub data ChargerState : Type 0 where
  available idle starting charging fault finishing : ChargerState
  evse_suspended ev_suspended booting unavailable : ChargerState

unfoldable pub state_code : ChargerState → ℕ
state_code available = 1
state_code idle = 2
state_code starting = 3
state_code charging = 4
state_code fault = 5
state_code finishing = 6
state_code evse_suspended = 7
state_code ev_suspended = 8
state_code booting = 9
state_code unavailable = 10

-- The members in the order of the class.
abbrev pub charger_states : List ChargerState
charger_states =
    available ∷ idle ∷ starting ∷ charging ∷ fault ∷ finishing ∷ evse_suspended ∷ ev_suspended
    ∷ booting ∷ unavailable ∷ []

find_state : ℕ → List ChargerState → Option ChargerState
unfolding state_code
find_state v [] = none
find_state v (s ∷ ss) = if v == state_code s then some s else find_state v ss

-- `ChargerState(value)`, with `none` for its ValueError.
unfoldable pub to_state : ℕ → Option ChargerState
unfolding find_state
to_state v = find_state v charger_states

unfoldable pub is_charging : ChargerState → Bool
is_charging starting = true
is_charging charging = true
is_charging _ = false

unfoldable pub is_suspended : ChargerState → Bool
is_suspended evse_suspended = true
is_suspended ev_suspended = true
is_suspended _ = false

unfoldable pub has_vehicle : ChargerState → Option Bool
has_vehicle fault = none
has_vehicle available = some false
has_vehicle booting = some false
has_vehicle unavailable = some false
has_vehicle _ = some true

unfoldable pub is_fault : ChargerState → Bool
is_fault fault = true
is_fault _ = false

-- `value in _SESSION_OPEN_STATES`, on a raw number.
unfoldable pub is_session_open : ℕ → Bool
unfolding state_code
is_session_open v =
    v == state_code starting
    || v == state_code charging
    || v == state_code evse_suspended
    || v == state_code ev_suspended
