-- ===== src/Models.antt =====
-- src/spinev_ble/models.py: the data classes that the client returns. A `str` is a list of code
-- points where the program walks it, and a `String` where it is a label. A float is a value of a
-- type that the module's user chooses. Energy is a count of hundredths of a kWh, which
-- `ENERGY_SCALE` turns into a float.
use Prim.Native.String.{String}
use spinev_ble.Base.{ℕ, Bool, true, false, Option, none, some, List, [], ◌∷◌}
use spinev_ble.Base.Int.{ℤ}
use spinev_ble.Const.States.{ChargerState, is_charging}

abbrev pub Bytes : Type 0
Bytes = List ℕ

abbrev pub Text : Type 0
Text = List ℕ

pub record Frame : Type 0 where
  pub register : ℕ
  pub flag : ℕ
  pub raw : Bytes

pub data AlarmSeverity : Type 0 where
  critical major minor warning : AlarmSeverity

pub record AlarmDef : Type 0 where
  pub bank : ℕ
  pub bit : ℕ
  pub name : String
  pub code : Option String
  pub severity : Option AlarmSeverity
  pub constant : Option String

-- The fields of a `datetime.datetime` that the program sets.
pub record Datetime : Type 0 where
  pub year : ℕ
  pub month : ℕ
  pub day : ℕ
  pub hour : ℕ
  pub minute : ℕ
  pub second : ℕ

pub record ChargingSession : Type 0 where
  pub start : Datetime
  pub end : Datetime
  pub energy : ℕ

pub record OcppConfig : Type 0 where
  pub host : Text
  pub port : ℤ
  pub path : Text
  pub charge_point_id : Text

module _ (Float : Type 0) where
  pub record LoadBalancingConfig : Type 0 where
    pub enabled : Bool
    pub grid_current_limit_a : Float
    pub safe_current_offset_a : Float
    pub reduce_current_offset_a : Float
    pub max_grid_power_w : Float
    pub source : ℕ
    pub priority : ℕ

  pub record ChargerStatus : Type 0 where
    pub state : Option ChargerState
    pub state_value : Option ℕ
    pub power_w : Option Float
    pub voltage_v : Option Float
    pub current_a : Option Float
    pub current_limit_a : Option Float
    pub session_energy : Option ℕ
    pub session_seconds : Option ℕ
    pub lifetime_energy : Option ℕ
    pub lifetime_seconds : Option ℕ
    pub firmware_version : Option Text
    pub alarms : List String

  -- `ChargerStatus.is_charging`
  unfoldable pub status_is_charging : ChargerStatus → Bool
  unfolding is_charging
  status_is_charging s = elim s.state [ none ↦ false | some c ↦ is_charging c ]

  -- `ChargerStatus.has_alarms`
  unfoldable pub has_alarms : ChargerStatus → Bool
  has_alarms s = elim s.alarms [ [] ↦ false | a ∷ rest ↦ true ]
