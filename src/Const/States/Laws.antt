-- ===== src/Const/States/Laws.antt =====
-- The numbers of the charger's states, and which of them count as an open session.
use spinev_ble.Base.{ℕ, ◌≡◌, refl, Bool, true, false, ◌||◌, Option, none, some, arith}
use spinev_ble.Const.States.{
  ChargerState, state_code, to_state, is_charging, is_suspended, has_vehicle, is_fault,
  is_session_open,
}

-- Every state is found again from its number.
pub to_state-state_code : (s : ChargerState) → to_state (state_code s) ≡ some s
unfolding to_state state_code
to_state-state_code ChargerState.available = refl
to_state-state_code ChargerState.idle = refl
to_state-state_code ChargerState.starting = refl
to_state-state_code ChargerState.charging = refl
to_state-state_code ChargerState.fault = refl
to_state-state_code ChargerState.finishing = refl
to_state-state_code ChargerState.evse_suspended = refl
to_state-state_code ChargerState.ev_suspended = refl
to_state-state_code ChargerState.booting = refl
to_state-state_code ChargerState.unavailable = refl

pub to_state_inv : (v : ℕ) {s : ChargerState} → to_state v ≡ some s → state_code s ≡ v
unfolding to_state state_code
to_state_inv v h = ground arith

-- The states of a session, and none of the numbers that are not a state's.
abbrev in_session : Option ChargerState → Bool
in_session none = false
in_session (some s) = is_charging s || is_suspended s

-- A raw number is held to be an open session exactly if it is the number of a state that is
-- charging or suspended; a number that no state has is none.
is_session_open_lem : (v : ℕ) → is_session_open v ≡ in_session (to_state v)
unfolding is_session_open to_state state_code is_charging is_suspended
is_session_open_lem v = ground arith

-- In a state with an open session the vehicle is plugged in and there is no fault, and only a fault
-- leaves the vehicle unknown.
pub is_session_open-has_vehicle :
    (s : ChargerState)
    → is_session_open (state_code s) ≡ true
    → (has_vehicle s ≡ some true) × (is_fault s ≡ false)
unfolding is_session_open state_code has_vehicle is_fault
is_session_open-has_vehicle ChargerState.available h = cc
is_session_open-has_vehicle ChargerState.idle h = cc
is_session_open-has_vehicle ChargerState.starting h = (refl, refl)
is_session_open-has_vehicle ChargerState.charging h = (refl, refl)
is_session_open-has_vehicle ChargerState.fault h = cc
is_session_open-has_vehicle ChargerState.finishing h = cc
is_session_open-has_vehicle ChargerState.evse_suspended h = (refl, refl)
is_session_open-has_vehicle ChargerState.ev_suspended h = (refl, refl)
is_session_open-has_vehicle ChargerState.booting h = cc
is_session_open-has_vehicle ChargerState.unavailable h = cc
