-- ===== src/Charger/Settings/Frames.antt =====
-- When the checks of the setters fail, and the frames of the settings that are in range.
use spinev_ble.Base.{
  ℕ, ◌-◌, ◌≤◌, ◌<◌, ◌≡◌, refl, ◌⊎◌, inl, inr, false, ◌&&◌, [], ◌∷◌, length, arith, Bool-cases,
  &&-true,
}
use spinev_ble.Base.Int.{ℤ, pos}
use spinev_ble.Errors.{ok, raise, value_error}
use spinev_ble.Models.{Text, OcppConfig, Datetime}
use spinev_ble.Protocol.Frames.Value.{be_bytes, build_write_uint_lem}
use spinev_ble.Protocol.Clock.{in_range, between}
use spinev_ble.Protocol.Clock.Packing.{
  IsBetween, between→IsBetween, in_range→IsBetween, build_clock_time_lem, build_clock_date_lem,
  build_timezone_lem,
}
use spinev_ble.Charger.Settings.{
  contains, check_wifi_field, wifi_frames, ocpp_frames, timezone_frames, clock_frames,
  random_delay_frames,
}

-- An offset in range gives one frame with the hours and the minutes in its last two bytes.
pub timezone_frames_lem :
    (h m : ℕ)
    → h < 24
    → m < 60
    → timezone_frames (pos h) (pos m) ≡ ok ((0x10 ∷ 0xAC ∷ 0x78 ∷ 1 ∷ 0 ∷ 0 ∷ h ∷ m ∷ []) ∷ [])
unfolding timezone_frames
timezone_frames_lem h m hh hm = ground (arith, build_timezone_lem h m hh hm)

pub timezone_frames_refuses :
    (h m : ℤ) → ¬ (IsBetween 0 h 23 × IsBetween 0 m 59) → timezone_frames h m ≡ raise value_error
unfolding timezone_frames
timezone_frames_refuses h m out = elim (Bool-cases (in_range h 24 && in_range m 60)) [
  | inl e ↦
      let (a, b) = &&-true (in_range h 24) (in_range m 60) e in
      absurd (out (in_range→IsBetween h 23 a, in_range→IsBetween m 59 b))
  | inr e ↦ rw e
]

-- A delay of at most half an hour gives one frame with its seconds.
pub random_delay_frames_lem :
    (n : ℕ)
    → n ≤ 1800
    → random_delay_frames (pos n) ≡ ok ((0x10 ∷ 0xAC ∷ 0xC2 ∷ 1 ∷ be_bytes n) ∷ [])
unfolding random_delay_frames
random_delay_frames_lem n h = ground (arith, build_write_uint_lem 0xC2 n)

pub random_delay_frames_refuses :
    (x : ℤ) → ¬ IsBetween 0 x 1800 → random_delay_frames x ≡ raise value_error
unfolding random_delay_frames
random_delay_frames_refuses x out = elim (Bool-cases (between 0 x 1800)) [
  | inl e ↦ absurd (out (between→IsBetween 0 x 1800 e))
  | inr e ↦ rw e
]

-- A field that the WiFi settings take: at most 32 characters, none of them a double quote.
abbrev pub IsWifiField : Text → Type 0
IsWifiField t = (length t ≤ 32) × (contains b'"' t ≡ false)

check_wifi_field_inv : (t : Text) → check_wifi_field t ≡ ok tt → IsWifiField t
unfolding check_wifi_field
check_wifi_field_inv t h = ground arith

check_wifi_field_cases :
    (t : Text) → (check_wifi_field t ≡ ok tt) ⊎ (check_wifi_field t ≡ raise value_error)
unfolding check_wifi_field
check_wifi_field_cases t = ground arith

pub wifi_frames_refuses :
    (ssid password : Text)
    → ¬ (IsWifiField ssid × IsWifiField password)
    → wifi_frames ssid password ≡ raise value_error
unfolding wifi_frames
wifi_frames_refuses ssid password out = elim (check_wifi_field_cases ssid) [
  | inl e ↦ elim (check_wifi_field_cases password) [
    | inl q ↦ absurd (out (check_wifi_field_inv ssid e, check_wifi_field_inv password q))
    | inr q ↦ rw (e, q) refl
  ]
  | inr e ↦ rw e refl
]

pub ocpp_frames_refuses :
    (c : OcppConfig)
    → (c.host ≡ []) ⊎ (¬ IsBetween 1 c.port 65535)
    → ocpp_frames c ≡ raise value_error
unfolding ocpp_frames
ocpp_frames_refuses c (inl e) = rw e refl
ocpp_frames_refuses c (inr out) = elim (Bool-cases (between 1 c.port 65535)) [
  | inl e ↦ absurd (out (between→IsBetween 1 c.port 65535 e))
  | inr e ↦ ground arith
]

-- The clock frames of a moment: the time, then the date.
pub clock_frames_lem :
    (t : Datetime)
    → t.hour < 24
    → t.minute < 60
    → t.second < 60
    → 1900 ≤ t.year
    → t.year ≤ 2155
    → 1 ≤ t.month
    → t.month ≤ 12
    → 1 ≤ t.day
    → t.day ≤ 31
    → clock_frames t
      ≡ ok (
          (0x10 ∷ 0xAC ∷ 0x3F ∷ 1 ∷ 0 ∷ t.second ∷ t.minute ∷ t.hour ∷ [])
          ∷ (0x10 ∷ 0xAC ∷ 0x40 ∷ 1 ∷ 0 ∷ t.day ∷ (t.month - 1) ∷ (t.year - 1900) ∷ [])
          ∷ [])
unfolding clock_frames
clock_frames_lem t h m s y1 y2 m1 m2 d1 d2 = ground (
  arith,
  build_clock_time_lem t.hour t.minute t.second h m s,
  build_clock_date_lem t.year t.month t.day y1 y2 m1 m2 d1 d2,
)
