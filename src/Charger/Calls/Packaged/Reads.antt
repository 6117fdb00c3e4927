-- ===== src/Charger/Calls/Packaged/Reads.antt =====
-- The exceptions that the reading methods of the command line may raise.
use spinev_ble.Base.{
  ◌==◌, not, ◌&&◌, ℕ, ◌≡◌, refl, sym, subst, ◌⊎◌, inl, inr, Option, none, some, [],
}
use spinev_ble.Errors.{Result, ok, err, raise, protocol_error}
use spinev_ble.Const.Registers.{Register}
use spinev_ble.Charger.Exchange.Sound.{IsIdle}
use spinev_ble.Charger.Write.Sound.{IsPackaged}
use spinev_ble.Float.{Floats}
use spinev_ble.Protocol.Frames.{bytes_of, pack_uint, build_read}
use spinev_ble.Charger.Reads.{
  read_float, get_state, get_state_value, read_alarm_word, decode_word, read_bank, read_banks,
  get_alarm_defs, get_alarms, get_status,
}
use spinev_ble.Const.States.{ChargerState, to_state}
use spinev_ble.Protocol.Alarms.{decode_alarm_defs, build_alarm_read, check_bank}
use spinev_ble.Protocol.Alarms.Index.{decode_alarm_defs-keep}
use spinev_ble.Charger.Control.{get_password}
use spinev_ble.Charger.Session.{World, Session, is_timeout}
use spinev_ble.Charger.Calls.Packaged.{
  Packs, bind-Packs, lift-Packs, pure-Packs, if_packs, ok_packaged, value_bytes_packaged,
  decode_uint_packaged, decode_float_packaged, decode_energy_packaged, decode_firmware_packaged,
  request-Packs, read_raw-Packs, read_uint-Packs,
}

state_packaged :
    (o : Option ChargerState)
    → IsPackaged
        (elim o as (λ _. Result ChargerState) [ none ↦ raise protocol_error | some s ↦ ok s ])
state_packaged none = refl
state_packaged (some s) = tt

alarm_defs_packaged :
    (word bank : ℕ) → (bank ≡ 1) ⊎ (bank ≡ 2) → IsPackaged (decode_alarm_defs word bank)
alarm_defs_packaged word bank h = ok_packaged _ _ (decode_alarm_defs-keep word bank h)

alarm_read_packaged : (bank : ℕ) → (bank ≡ 1) ⊎ (bank ≡ 2) → IsPackaged (build_alarm_read bank)
unfolding build_alarm_read check_bank build_read bytes_of pack_uint
alarm_read_packaged bank (inl e) = subst (λ b. IsPackaged (build_alarm_read b)) (sym e) tt
alarm_read_packaged bank (inr e) = subst (λ b. IsPackaged (build_alarm_read b)) (sym e) tt

ruleset packing = (
  bind-Packs, lift-Packs, pure-Packs, state_packaged, decode_uint_packaged, decode_float_packaged,
  decode_energy_packaged, decode_firmware_packaged, value_bytes_packaged,
)

module _ (w : World) where
  ruleset reading = (packing, read_raw-Packs, read_uint-Packs, request-Packs)

  pub get_state-Packs : Packs (get_state w)
  unfolding get_state get_state_value
  get_state-Packs =
      bind-Packs _ _ (read_uint-Packs w Register.state)
        λ v. lift-Packs _ (state_packaged (to_state v))

  read_alarm_word-Packs : (bank : ℕ) → (bank ≡ 1) ⊎ (bank ≡ 2) → Packs (read_alarm_word w bank)
  unfolding read_alarm_word
  read_alarm_word-Packs bank h = search (reading, alarm_read_packaged bank h) depth 12

  word_packs :
      (bank : ℕ) (r : Result ℕ) (s : Session)
      → (bank ≡ 1) ⊎ (bank ≡ 2)
      → IsPackaged r
      → IsIdle s.client
      → let q = decode_word bank (r, s) in IsPackaged q.0 × IsIdle q.1.client
  unfolding decode_word
  word_packs bank (ok word) s b h i = (alarm_defs_packaged word bank b, i)
  word_packs bank (err e) s b h i =
      if_packs (is_timeout e && not (bank == 1)) (ok [], s) (err e, s) (tt, i) (h, i)

  read_bank-Packs : (bank : ℕ) → (bank ≡ 1) ⊎ (bank ≡ 2) → Packs (read_bank w bank)
  unfolding read_bank
  read_bank-Packs bank b = record {
    packs = λ s i.
        let (h, j) = (read_alarm_word-Packs bank b).packs s i in
        word_packs bank (read_alarm_word w bank s).0 (read_alarm_word w bank s).1 b h j;
  }

  get_alarm_defs-Packs : Packs (get_alarm_defs w)
  unfolding get_alarm_defs read_banks
  get_alarm_defs-Packs =
      bind-Packs (read_bank w 1) _ (read_bank-Packs 1 (inl refl))
        λ one. bind-Packs (read_bank w 2) _ (read_bank-Packs 2 (inr refl)) λ two. pure-Packs _

  pub get_status-Packs : (f : Floats) → Packs (get_status w f)
  unfolding get_status get_state_value read_float get_alarms
  get_status-Packs f = search (reading, get_alarm_defs-Packs) depth 40

  pub get_password-Packs : Packs (get_password w)
  unfolding get_password
  get_password-Packs = search reading depth 8
