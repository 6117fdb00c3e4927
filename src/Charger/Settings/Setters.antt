-- ===== src/Charger/Settings/Setters.antt =====
-- The setters end to end: what each hands to the transport, and what each refuses.
use spinev_ble.Base.{ℕ, ◌-◌, ◌≤◌, ◌<◌, ◌≡◌, ap, sym, ◌∙◌, ◌⊎◌, Bool, some, List, [], ◌∷◌, ◌++◌}
use spinev_ble.Base.Int.{ℤ, pos}
use spinev_ble.Errors.{Result, ok, raise, value_error}
use spinev_ble.Models.{Bytes, Text, OcppConfig, Datetime}
use spinev_ble.Protocol.Frames.Value.{be_bytes}
use spinev_ble.Protocol.Clock.Packing.{IsBetween}
use spinev_ble.Charger.Exchange.Sound.{IsIdle}
use spinev_ble.Charger.Session.{World, Session}
use spinev_ble.Charger.Settings.Methods.{
  apply_frames, set_wifi, set_ocpp_config, set_timezone, sync_clock, set_random_delay,
}
use spinev_ble.Charger.Settings.Frames.{
  timezone_frames_lem, timezone_frames_refuses, random_delay_frames_lem,
  random_delay_frames_refuses, clock_frames_lem, IsWifiField, wifi_frames_refuses,
  ocpp_frames_refuses,
}
use spinev_ble.Charger.Settings.Sent.{apply_frames_sent, apply_frames_invalid, commit_part}

module _ (w : World) (s : Session) where
  sent_frames :
      {frames : Result (List Bytes)} {fs : List Bytes} (b : Bool)
      → frames ≡ ok fs
      → IsIdle s.client
      → (apply_frames w frames b s).0 ≡ ok tt
      → (apply_frames w frames b s).1.handed ≡ s.handed ++ (fs ++ commit_part b)
  sent_frames {fs} b e i h =
      ap (λ r. (apply_frames w r b s).1.handed) e
      ∙ apply_frames_sent w fs b s i (sym (ap (λ r. (apply_frames w r b s).0) e) ∙ h)

  -- Setting an offset in range, with nothing in flight before, when it returns, has handed over the
  -- one frame with the hours and the minutes, and behind it the commit frame exactly if asked for.
  set_timezone_sends :
      (h m : ℕ) (b : Bool)
      → h < 24
      → m < 60
      → IsIdle s.client
      → (set_timezone w (pos h) (pos m) b s).0 ≡ ok tt
      → (set_timezone w (pos h) (pos m) b s).1.handed
        ≡ s.handed ++ ((0x10 ∷ 0xAC ∷ 0x78 ∷ 1 ∷ 0 ∷ 0 ∷ h ∷ m ∷ []) ∷ commit_part b)
  unfolding set_timezone
  set_timezone_sends h m b hh hm i e = sent_frames b (timezone_frames_lem h m hh hm) i e

  -- Any other offset is refused with a value error, and nothing is sent or changed.
  pub set_timezone_refuses :
      (h m : ℤ) (b : Bool)
      → ¬ (IsBetween 0 h 23 × IsBetween 0 m 59)
      → set_timezone w h m b s ≡ (raise value_error, s)
  unfolding set_timezone
  set_timezone_refuses h m b out = apply_frames_invalid w _ _ b s (timezone_frames_refuses h m out)

  -- Setting a random delay of at most 1800 seconds, when it returns, has handed over the one frame
  -- with the delay in four bytes, and behind it the commit frame exactly if asked for.
  set_random_delay_sends :
      (n : ℕ) (b : Bool)
      → n ≤ 1800
      → IsIdle s.client
      → (set_random_delay w (pos n) b s).0 ≡ ok tt
      → (set_random_delay w (pos n) b s).1.handed
        ≡ s.handed ++ ((0x10 ∷ 0xAC ∷ 0xC2 ∷ 1 ∷ be_bytes n) ∷ commit_part b)
  unfolding set_random_delay
  set_random_delay_sends n b h i e = sent_frames b (random_delay_frames_lem n h) i e

  -- Any other delay, a negative one included, is refused with a value error, and nothing is sent
  -- or changed.
  pub set_random_delay_refuses :
      (x : ℤ) (b : Bool) → ¬ IsBetween 0 x 1800 → set_random_delay w x b s ≡ (raise value_error, s)
  unfolding set_random_delay
  set_random_delay_refuses x b out =
      apply_frames_invalid w _ _ b s (random_delay_frames_refuses x out)

  -- Setting the clock to a given moment of the years 1900 to 2155, with nothing in flight before,
  -- when it returns, has handed over the time frame and then the date frame, and behind them the
  -- commit frame exactly if asked for.
  pub sync_clock_sends :
      (t now : Datetime) (b : Bool)
      → t.hour < 24
      → t.minute < 60
      → t.second < 60
      → 1900 ≤ t.year
      → t.year ≤ 2155
      → 1 ≤ t.month
      → t.month ≤ 12
      → 1 ≤ t.day
      → t.day ≤ 31
      → IsIdle s.client
      → (sync_clock w (some t) now b s).0 ≡ ok tt
      → (sync_clock w (some t) now b s).1.handed
        ≡ s.handed
          ++ ((0x10 ∷ 0xAC ∷ 0x3F ∷ 1 ∷ 0 ∷ t.second ∷ t.minute ∷ t.hour ∷ [])
              ∷ (0x10 ∷ 0xAC ∷ 0x40 ∷ 1 ∷ 0 ∷ t.day ∷ (t.month - 1) ∷ (t.year - 1900) ∷ [])
              ∷ commit_part b)
  unfolding sync_clock
  sync_clock_sends t now b h m sec y1 y2 m1 m2 d1 d2 i e =
      sent_frames b (clock_frames_lem t h m sec y1 y2 m1 m2 d1 d2) i e

  -- An SSID or a password of more than 32 characters, or with a double quote, is refused with a
  -- value error, and nothing is sent or changed.
  pub set_wifi_refuses :
      (ssid password : Text) (b : Bool)
      → ¬ (IsWifiField ssid × IsWifiField password)
      → set_wifi w ssid password b s ≡ (raise value_error, s)
  unfolding set_wifi
  set_wifi_refuses ssid password b out =
      apply_frames_invalid w _ _ b s (wifi_frames_refuses ssid password out)

  -- OCPP settings without a host, or with a port that is not one of 1 to 65535, are refused with a
  -- value error, and nothing is sent or changed.
  pub set_ocpp_config_refuses :
      (c : OcppConfig) (b : Bool)
      → (c.host ≡ []) ⊎ (¬ IsBetween 1 c.port 65535)
      → set_ocpp_config w c b s ≡ (raise value_error, s)
  unfolding set_ocpp_config
  set_ocpp_config_refuses c b out = apply_frames_invalid w _ _ b s (ocpp_frames_refuses c out)
