-- ===== src/Charger/Settings/Refused.antt =====
-- What the setters refuse, for every setter that tests its arguments.
use spinev_ble.Base.{◌≡◌, ◌≢◌, refl, ◌⊎◌, inl, inr, Bool, [], ◌∷◌}
use spinev_ble.Base.Int.{ℤ}
use spinev_ble.Errors.{raise, value_error}
use spinev_ble.Models.{Text, OcppConfig}
use spinev_ble.Protocol.Clock.Packing.{IsBetween}
use spinev_ble.Charger.Session.{World, Session, M}
use spinev_ble.Charger.Settings.Methods.{set_wifi, set_ocpp_config, set_timezone, set_random_delay}
use spinev_ble.Charger.Settings.Frames.{IsWifiField}
use spinev_ble.Charger.Settings.Setters.{
  set_wifi_refuses, set_ocpp_config_refuses, set_timezone_refuses, set_random_delay_refuses,
}

-- A call of a setter.
pub data Setting : Type 0 where
  wifi : Text → Text → Setting
  ocpp : OcppConfig → Setting
  timezone : ℤ → ℤ → Setting
  random_delay : ℤ → Setting

abbrev pub apply_setting : World → Setting → Bool → M (Unit {0})
apply_setting w (wifi ssid password) = set_wifi w ssid password
apply_setting w (ocpp config) = set_ocpp_config w config
apply_setting w (timezone hours minutes) = set_timezone w hours minutes
apply_setting w (random_delay seconds) = set_random_delay w seconds

-- An SSID and a password of at most 32 characters without a double quote, a host and a port of 1 to
-- 65535, an offset of at most 23 hours and 59 minutes, a delay of at most 1800 seconds.
abbrev pub IsSetting : Setting → Type 0
IsSetting (wifi ssid password) = IsWifiField ssid × IsWifiField password
IsSetting (ocpp config) = (config.host ≢ []) × IsBetween 1 config.port 65535
IsSetting (timezone hours minutes) = IsBetween 0 hours 23 × IsBetween 0 minutes 59
IsSetting (random_delay seconds) = IsBetween 0 seconds 1800

which_ocpp :
    (host : Text) (port : ℤ)
    → ¬ ((host ≢ []) × IsBetween 1 port 65535)
    → (host ≡ []) ⊎ (¬ IsBetween 1 port 65535)
which_ocpp [] port out = inl refl
which_ocpp (c ∷ host) port out = inr (λ b. out (λ e. cc, b))

-- A setter whose arguments are not a setting, a negative number included, raises a value error: an
-- SSID or a password of more than 32 characters or with a double quote, no OCPP host, a port that is
-- not one of 1 to 65535, an offset beyond 23 hours or 59 minutes, or a delay beyond 1800 seconds.
-- Nothing is sent or changed, whatever the transport does.
pub apply_setting_refuses :
    (w : World) (s : Session) (x : Setting) (is_committed : Bool)
    → ¬ IsSetting x
    → apply_setting w x is_committed s ≡ (raise value_error, s)
apply_setting_refuses w s (wifi ssid password) b out = set_wifi_refuses w s ssid password b out
apply_setting_refuses w s (ocpp config) b out =
    set_ocpp_config_refuses w s config b (which_ocpp config.host config.port out)
apply_setting_refuses w s (timezone hours minutes) b out =
    set_timezone_refuses w s hours minutes b out
apply_setting_refuses w s (random_delay seconds) b out = set_random_delay_refuses w s seconds b out
