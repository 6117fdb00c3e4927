-- ===== src/Charger/Settings/Methods.antt =====
-- The setters of `SpinEvCharger`: each writes its frames and then, if asked to, commits.
use spinev_ble.Base.{Bool, true, false, Option, none, some, List}
use spinev_ble.Base.Int.{ℤ}
use spinev_ble.Errors.{Result}
use spinev_ble.Models.{Bytes, Text, OcppConfig, Datetime}
use spinev_ble.Charger.Session.{World, M, pure, lift, ◌>>=◌, ◌>>◌, write_frames}
use spinev_ble.Charger.Settings.{
  wifi_frames, ocpp_frames, timezone_frames, clock_frames, random_delay_frames, internet_frames,
  commit_frames,
}

module _ (w : World) where
  -- `async_commit`
  unfoldable pub commit : M (Unit {0})
  commit = lift commit_frames >>= write_frames w

  -- `_commit_if`
  unfoldable pub commit_if : Bool → M (Unit {0})
  commit_if true = commit
  commit_if false = pure tt

  -- What every setter does with its frames.
  unfoldable pub apply_frames : Result (List Bytes) → Bool → M (Unit {0})
  apply_frames frames is_committed = do fs ← lift frames; write_frames w fs; commit_if is_committed

  unfoldable pub set_wifi : Text → Text → Bool → M (Unit {0})
  set_wifi ssid password = apply_frames (wifi_frames ssid password)

  unfoldable pub set_ocpp_config : OcppConfig → Bool → M (Unit {0})
  set_ocpp_config config = apply_frames (ocpp_frames config)

  unfoldable pub set_timezone : ℤ → ℤ → Bool → M (Unit {0})
  set_timezone hours minutes = apply_frames (timezone_frames hours minutes)

  -- `when or datetime.now()`
  abbrev or_now : Option Datetime → Datetime → Datetime
  or_now none now = now
  or_now (some t) now = t

  unfoldable pub sync_clock : Option Datetime → (now : Datetime) → Bool → M (Unit {0})
  sync_clock moment now = apply_frames (clock_frames (or_now moment now))

  unfoldable pub set_random_delay : ℤ → Bool → M (Unit {0})
  set_random_delay seconds = apply_frames (random_delay_frames seconds)

  unfoldable pub set_internet_connectivity : Bool → Bool → M (Unit {0})
  set_internet_connectivity enabled = apply_frames (internet_frames enabled)

  -- `async_reboot`
  unfoldable pub reboot : M (Unit {0})
  reboot = commit
