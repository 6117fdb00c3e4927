-- ===== src/Charger/Calls/Packaged/Settings.antt =====
-- The exceptions that writing the OCPP settings may raise.
use spinev_ble.Base.{
  suc, zero, ◌+◌, ◌/◌, ◌%◌, not, ◌||◌, all, ltb, leb, ◌==◌, length, lt→ltb, ℕ, ◌^◌, ◌<◌, ◌≡◌, refl,
  Bool, true, false, [], ◌∷◌, arith,
}
use spinev_ble.Base.Int.{ℤ, pos, negsuc, pos_part}
use spinev_ble.Errors
use spinev_ble.Errors.{
  SpinEvError, value_error, Result, ok, err, raise, require, connection_error, protocol_error,
}
use spinev_ble.Models.{Bytes, Text, OcppConfig}
use spinev_ble.Const.{max_port}
use spinev_ble.Protocol.Clock.{between}
use spinev_ble.Protocol.Frames.{bytes_of, pack_uint, build_write_uint, build_commit}
use spinev_ble.Protocol.Frames.Value.{build_write_uint_lem}
use spinev_ble.Charger.Settings.{ocpp_frames, commit_frames}
use spinev_ble.Charger.Settings.Methods.{commit, commit_if, apply_frames, set_ocpp_config}
use spinev_ble.Charger.Calls.Packaged.Streams.{write_frames-Packs}
use spinev_ble.Protocol.Text.{encode_ascii, ljust, string_frames, build_string_write}
use spinev_ble.Charger.Write.Sound.{IsPackaged}
use spinev_ble.Charger.Session.{World}
use spinev_ble.Charger.Calls.Packaged.{
  Packs, bind-Packs, lift-Packs, pure-Packs, ok_packaged, then_packaged, require_packaged,
  if_packaged,
}

bytes_two : (a b : ℕ) → a < 256 → b < 256 → bytes_of (a ∷ b ∷ []) ≡ ok (a ∷ b ∷ [])
unfolding bytes_of
bytes_two a b h k = rw (lt→ltb a 256 h, lt→ltb b 256 k) refl

string_frames_packaged :
    (register : ℕ) (payload : Bytes) (i n : ℕ)
    → register < 256
    → i + n < 256
    → IsPackaged (string_frames register payload i n)
unfolding string_frames
string_frames_packaged register payload i zero h k = tt
string_frames_packaged register payload i (suc n) h k =
    then_packaged (bytes_of (register ∷ (i + 1) ∷ [])) _
      (ok_packaged _ _ (bytes_two register (i + 1) h (omega arith)))
      λ head.
        then_packaged (string_frames register payload (i + 1) n) _
          (string_frames_packaged register payload (i + 1) n h (omega arith)) λ rest. tt

encode_ascii_packaged : (s : Text) → IsPackaged (encode_ascii s)
unfolding encode_ascii
encode_ascii_packaged s = if_packaged (all (λ c. ltb c 128) s) (ok s) (raise protocol_error) tt refl

string_write_packaged :
    (register : ℕ) (s : Text) (field_bytes : ℕ)
    → register < 256
    → field_bytes / 4 < 256
    → IsPackaged (build_string_write register s field_bytes)
unfolding build_string_write
string_write_packaged register s field_bytes h k =
    then_packaged (require (not (field_bytes == 0 || not (field_bytes % 4 == 0))) protocol_error) _
      (require_packaged _ _)
      λ _. then_packaged (encode_ascii s) _ (encode_ascii_packaged s) λ payload.
        then_packaged (require (leb (length payload) field_bytes) protocol_error) _
          (require_packaged _ _)
          λ _.
            string_frames_packaged register (ljust payload field_bytes) 0 (field_bytes / 4) h
              (omega (arith, k))

in_port : (port : ℤ) → between 1 port max_port ≡ true → pos_part port < 2 ^ 32
in_port (pos n) h = ground (arith, h)
in_port (negsuc n) h = ground (arith, h)

required : (b : Bool) (e : SpinEvError) {u : Unit {0}} → require b e ≡ ok u → b ≡ true
required true e h = refl
required false e h = cc

then_packaged_eq :
    {A B : Type 0} (r : Result A) (f : A → Result B)
    → IsPackaged r
    → ((a : A) → r ≡ ok a → IsPackaged (f a))
    → IsPackaged (Errors.◌>>=◌ r f)
then_packaged_eq (ok a) f h k = k a refl
then_packaged_eq (err e) f h k = h

write_uint_packaged :
    (register v : ℕ) → register < 256 → v < 2 ^ 32 → IsPackaged (build_write_uint register v)
write_uint_packaged register v h k = ok_packaged _ _ (build_write_uint_lem register v h k)

ocpp_frames_packaged : (config : OcppConfig) → IsPackaged (ocpp_frames config)
unfolding ocpp_frames
ocpp_frames_packaged config = then_packaged _ _ (require_packaged _ _) λ _.
    then_packaged_eq (require (between 1 config.port max_port) value_error) _ (require_packaged _ _)
      λ _ e.
        then_packaged _ _ (string_write_packaged _ config.host 64 (omega arith) (omega arith))
          λ hosts.
            then_packaged _ _
              (write_uint_packaged _ (pos_part config.port) (omega arith)
                (in_port config.port (required _ _ e)))
              λ port.
                then_packaged _ _
                  (string_write_packaged _ config.path 64 (omega arith) (omega arith))
                  λ paths.
                    then_packaged _ _
                      (string_write_packaged _ config.charge_point_id 32 (omega arith)
                        (omega arith))
                      λ ids. tt

commit_frames_packaged : IsPackaged commit_frames
unfolding commit_frames build_commit build_write_uint bytes_of pack_uint
commit_frames_packaged = tt

module _ (w : World) where
  commit_if-Packs : (on : Bool) → Packs (commit_if w on)
  unfolding commit_if commit
  commit_if-Packs true =
      bind-Packs _ _ (lift-Packs _ commit_frames_packaged) λ fs. write_frames-Packs w fs
  commit_if-Packs false = pure-Packs tt

  pub set_ocpp_config-Packs :
      (config : OcppConfig) (on : Bool) → Packs (set_ocpp_config w config on)
  unfolding set_ocpp_config apply_frames
  set_ocpp_config-Packs config on =
      bind-Packs _ _ (lift-Packs _ (ocpp_frames_packaged config))
        λ fs. bind-Packs _ _ (write_frames-Packs w fs) λ _. commit_if-Packs on
