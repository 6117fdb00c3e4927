-- ===== src/Cli/Ocpp.antt =====
-- The `ocpp` command of src/spinev_ble/__main__.py, inside its `async with` block: `_charger_host`,
-- `_wanted_ocpp`, `_cmd_ocpp` and `_ocpp_url`. `is_ip` stands for Python's
-- `ip_address`, which takes a text or raises. What is printed is a report.
pub mod Host
pub mod Again
pub mod Harmless
use spinev_ble.Base.{
  ℕ, Bool, true, false, ◌&&◌, Option, none, some, List, [], ◌∷◌, ◌++◌, ◌==◌, same, if◌then◌else◌,
}
use mathlib.Core.List.{reverse}
use spinev_ble.Base.Int.{ℤ, pos, negsuc}
use spinev_ble.Errors.{Result, ok, err}
use spinev_ble.Models.{Text, OcppConfig}
use spinev_ble.Protocol.Text.{strip}
use spinev_ble.Charger.Session.{World, Session}
use spinev_ble.Charger.Reads.{get_ocpp_config}
use spinev_ble.Charger.Settings.Methods.{set_ocpp_config}
use spinev_ble.Cli.{Ended, done, stopped, system_exit, raised}

-- "dns:"
abbrev pub dns_prefix : Text
dns_prefix = b'd' ∷ b'n' ∷ b's' ∷ b':' ∷ []

-- "ocpp"
abbrev pub default_ocpp_path : Text
default_ocpp_path = b'o' ∷ b'c' ∷ b'p' ∷ b'p' ∷ []

-- `text.startswith(prefix)` and `text.removeprefix(prefix)`
unfoldable pub starts_with : Text → Text → Bool
starts_with [] s = true
starts_with (p ∷ ps) [] = false
starts_with (p ∷ ps) (c ∷ s) = (p == c) && starts_with ps s

abbrev pub cut : Text → Text → Text
cut [] s = s
cut (p ∷ ps) [] = []
cut (p ∷ ps) (c ∷ s) = cut ps s

unfoldable pub remove_prefix : Text → Text → Text
unfolding starts_with
remove_prefix prefix s = if starts_with prefix s then cut prefix s else s

-- `text.strip("/")`
unfoldable pub drop_slashes : Text → Text
drop_slashes [] = []
drop_slashes (c ∷ s) = if c == b'/' then drop_slashes s else c ∷ s

unfoldable pub strip_slashes : Text → Text
unfolding drop_slashes
strip_slashes s = reverse (drop_slashes (reverse (drop_slashes s)))

abbrev pub behind_slash : Text → Text
behind_slash [] = []
behind_slash (c ∷ s) = b'/' ∷ c ∷ s

-- `_ocpp_url`, with Python's text of an integer.
unfoldable pub ocpp_url : (ℤ → Text) → OcppConfig → Text
unfolding remove_prefix strip_slashes
ocpp_url str config =
    (b'w' ∷ b's' ∷ b':' ∷ b'/' ∷ b'/' ∷ remove_prefix dns_prefix config.host)
    ++ (b':' ∷ str config.port)
    ++ behind_slash (strip_slashes config.path)
    ++ (b'/' ∷ config.charge_point_id)

-- The arguments of the command.
pub record OcppArgs : Type 0 where
  pub host : Option Text
  pub port : Option ℤ
  pub path : Option Text
  pub charge_point_id : Option Text

-- `given or current`
abbrev pub or_current : Option Text → Text → Text
or_current none current = current
or_current (some []) current = current
or_current (some (c ∷ s)) current = c ∷ s

abbrev pub chosen_port : Option ℤ → ℤ → ℤ
chosen_port none current = current
chosen_port (some p) current = p

abbrev pub or_default : Text → Text
or_default [] = default_ocpp_path
or_default (c ∷ s) = c ∷ s

abbrev pub chosen_path : Option Text → Text → Text
chosen_path none current = or_default current
chosen_path (some p) current = p

abbrev pub same_ℤ : ℤ → ℤ → Bool
same_ℤ (pos m) (pos n) = m == n
same_ℤ (negsuc m) (negsuc n) = m == n
same_ℤ (pos m) (negsuc n) = false
same_ℤ (negsuc m) (pos n) = false

-- `wanted == current`
unfoldable pub same_config : OcppConfig → OcppConfig → Bool
same_config a b =
    same a.host b.host
    && same_ℤ a.port b.port
    && same a.path b.path
    && same a.charge_point_id b.charge_point_id

-- What the command prints: the settings there are, that there is nothing to change, or the settings
-- before and behind a write.
pub data OcppReport : Type 0 where
  shown : OcppConfig → OcppReport
  unchanged : OcppReport
  written : OcppConfig → OcppConfig → OcppReport

module _ (is_ip : Text → Bool) where
  abbrev marked : Text → Text
  marked host =
      if is_ip host then host else if starts_with dns_prefix host then host else dns_prefix ++ host

  -- `_charger_host`
  unfoldable pub charger_host : Text → Text
  charger_host host = marked (strip host)

  -- The settings for a charge point id that was chosen.
  abbrev pub with_id : OcppArgs → Text → OcppConfig → Text → Ended OcppConfig
  with_id args host current [] = stopped system_exit
  with_id args host current (c ∷ s) = done (record {
    host = charger_host host;
    port = chosen_port args.port current.port;
    path = chosen_path args.path current.path;
    charge_point_id = c ∷ s;
  })

  -- `_wanted_ocpp`, with the host of the arguments.
  unfoldable pub wanted_ocpp : OcppArgs → Text → OcppConfig → Ended OcppConfig
  wanted_ocpp args host current =
      with_id args host current (or_current args.charge_point_id current.charge_point_id)

  module _ (w : World) where
    abbrev pub end_write :
        OcppConfig → OcppConfig → Result (Unit {0}) × Session → Ended OcppReport × Session
    end_write current wanted (ok _, t) = (done (written current wanted), t)
    end_write current wanted (err e, t) = (stopped (raised e), t)

    -- `_cmd_ocpp` behind `_wanted_ocpp`.
    abbrev pub write_wanted : OcppConfig → Ended OcppConfig → Session → Ended OcppReport × Session
    write_wanted current (stopped x) s = (stopped x, s)
    write_wanted current (done wanted) s =
        if same_config wanted current
        then (done unchanged, s)
        else end_write current wanted (set_ocpp_config w wanted true s)

    -- `_cmd_ocpp` behind the read.
    abbrev pub point_to : OcppArgs → Option Text → OcppConfig → Session → Ended OcppReport × Session
    point_to args none current s = (done (shown current), s)
    point_to args (some host) current s = write_wanted current (wanted_ocpp args host current) s

    abbrev pub behind_read : OcppArgs → Result OcppConfig × Session → Ended OcppReport × Session
    behind_read args (ok current, s) = point_to args args.host current s
    behind_read args (err e, s) = (stopped (raised e), s)

    -- `_cmd_ocpp`
    unfoldable pub cmd_ocpp : OcppArgs → Session → Ended OcppReport × Session
    unfolding same_config wanted_ocpp
    cmd_ocpp args s = behind_read args (get_ocpp_config w s)
