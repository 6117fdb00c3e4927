-- ===== src/Float.antt =====
-- Python's `float`, which the development takes as a parameter: the values, `struct.pack(">f", x)`
-- and `struct.unpack(">f", raw)[0]`, the order, and the two constants of src/spinev_ble/const.py
-- that are floats (`MIN_CURRENT_A`, `DEFAULT_MAX_CURRENT_A`).
use spinev_ble.Base.{Bool}
use spinev_ble.Models.{Bytes}
use spinev_ble.Errors.{Result}

pub record Floats : Type 1 where
  pub Float : Type 0
  pub pack : Float → Result Bytes
  pub unpack : Bytes → Float
  pub leb : Float → Float → Bool
  pub min_current : Float
  pub default_max_current : Float
