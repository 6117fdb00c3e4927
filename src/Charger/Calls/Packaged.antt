-- ===== src/Charger/Calls/Packaged.antt =====
-- The exceptions that a method may raise: rules for the actions of a method, and the shared reads.
pub mod Control
pub mod Reads
pub mod Streams
pub mod Settings
use spinev_ble.Base.{
  take, drop, ◌==◌, lt→ltb, get_or, not, ◌&&◌, ℕ, ◌^◌, ◌<◌, ◌≤◌, ◌≡◌, ◌≢◌, refl, sym, ap, subst,
  ◌⊎◌, inl, inr, Bool, true, false, Option, none, some, List, [], ◌∷◌, ◌++◌, if◌then◌else◌, length,
  arith,
}
use spinev_ble.Base.Int.{pos}
use spinev_ble.Errors.{
  Exception, is_spinev, Result, ok, err, SpinEvError, raise, connection_error, protocol_error,
  require,
}
use spinev_ble.Const.Registers.{Register, Command, register_value, control}
use spinev_ble.Models.{Bytes}
use spinev_ble.Charger.Exchange.Invariant.{IsSound}
use spinev_ble.Charger.Exchange.Sound.{IsIdle, exchange-IsSound}
use spinev_ble.Charger.Exchange.{exchange}
use spinev_ble.Charger.Write.Sound.{IsPackaged, send_frame-IsPackaged}
use spinev_ble.Errors
use spinev_ble.Float.{Floats}
use spinev_ble.Protocol.Frames.{
  value_length, value_offset, bytes_of, pack_uint, build_read, check_value_length, decode_uint,
  decode_float, decode_energy,
}
use spinev_ble.Protocol.Text.{decode_firmware_version}
use spinev_ble.Charger.Reads.{
  value_bytes, read_raw, read_uint, read_float, get_state, get_state_value, read_alarm_word,
  decode_word, read_bank, read_banks, get_alarm_defs, get_alarms, get_status,
}
use spinev_ble.Const.States.{ChargerState, to_state}
use spinev_ble.Protocol.Alarms.{decode_alarm_defs, build_alarm_read, check_bank}
use spinev_ble.Protocol.Alarms.Index.{decode_alarm_defs-keep}
use spinev_ble.Charger.Control.{get_password}
use spinev_ble.Charger.Session.{World, Session, M, pure, lift, is_timeout, ◌>>=◌, ◌>>◌, request}

-- From a client with nothing in flight, a method returns or raises a package error, and leaves nothing
-- in flight.
pub record Packs {A : Type 0} (m : M A) : Type 0 where
  pub packs : (s : Session) → IsIdle s.client → IsPackaged (m s).0 × IsIdle (m s).1.client

bind_packs :
    {A B : Type 0} (f : A → M B) (r : Result A) (t : Session)
    → IsPackaged r
    → IsIdle t.client
    → ((a : A) → r ≡ ok a → Packs (f a))
    → let q = elim r as (λ _. Result B × Session) [ ok a ↦ f a t | err e ↦ (err e, t) ] in
      IsPackaged q.0 × IsIdle q.1.client
bind_packs f (ok a) t p i k = (k a refl).packs t i
bind_packs f (err e) t p i k = (p, i)

module _ {A B : Type 0} where
  pub bind-Packs : (m : M A) (f : A → M B) → Packs m → ((a : A) → Packs (f a)) → Packs (m >>= f)
  bind-Packs m f h k = record {
    packs = λ s i. let (p, j) = h.packs s i in bind_packs f (m s).0 (m s).1 p j (λ a _. k a);
  }

  -- Behind a pure part, with what it returned.
  pub lift_bind-Packs :
      (r : Result A) (f : A → M B)
      → IsPackaged r
      → ((a : A) → r ≡ ok a → Packs (f a))
      → Packs (lift r >>= f)
  lift_bind-Packs r f p k = record { packs = λ s i. bind_packs f r s p i k }

module _ {A : Type 0} where
  pub lift-Packs : (r : Result A) → IsPackaged r → Packs (lift r)
  lift-Packs r p = record { packs = λ s i. (p, i) }

  pub pure-Packs : (a : A) → Packs (pure a)
  pure-Packs a = record { packs = λ s i. (tt, i) }

sound_packaged : (register flag : ℕ) (r : Result Bytes) → IsSound register flag r → IsPackaged r
sound_packaged register flag (ok p) h = tt
sound_packaged register flag (err e) h = h

pub if_packs :
    {A : Type 0} (b : Bool) (p q : Result A × Session)
    → IsPackaged p.0 × IsIdle p.1.client
    → IsPackaged q.0 × IsIdle q.1.client
    → let r = if b then p else q in IsPackaged r.0 × IsIdle r.1.client
if_packs true p q h k = h
if_packs false p q h k = k

pub require_packaged : (b : Bool) (e : SpinEvError) → IsPackaged (require b e)
require_packaged true e = tt
require_packaged false e = refl

pub then_packaged :
    {A B : Type 0} (r : Result A) (f : A → Result B)
    → IsPackaged r
    → ((a : A) → IsPackaged (f a))
    → IsPackaged (Errors.◌>>=◌ r f)
then_packaged (ok a) f h k = k a
then_packaged (err e) f h k = h

pub if_packaged :
    {A : Type 0} (b : Bool) (p q : Result A)
    → IsPackaged p
    → IsPackaged q
    → IsPackaged (if b then p else q)
if_packaged true p q h k = h
if_packaged false p q h k = k

pub value_bytes_packaged : (p : Bytes) → IsPackaged (value_bytes p)
unfolding value_bytes
value_bytes_packaged p =
    let v = take value_length (drop value_offset p) in
    if_packaged (length v == value_length) (ok v) (raise protocol_error) tt refl

pub decode_uint_packaged : (raw : Bytes) → IsPackaged (decode_uint raw)
unfolding decode_uint check_value_length
decode_uint_packaged raw = then_packaged (check_value_length raw) _ (require_packaged _ _) λ _. tt

pub decode_float_packaged : (f : Floats) (raw : Bytes) → IsPackaged (decode_float f raw)
unfolding decode_float check_value_length
decode_float_packaged f raw =
    then_packaged (check_value_length raw) _ (require_packaged _ _) λ _. tt

pub decode_energy_packaged : (raw : Bytes) → IsPackaged (decode_energy raw)
unfolding decode_energy
decode_energy_packaged = decode_uint_packaged

pub decode_firmware_packaged : (raw : Bytes) → IsPackaged (decode_firmware_version raw)
unfolding decode_firmware_version check_value_length
decode_firmware_packaged raw =
    then_packaged (check_value_length raw) _ (require_packaged _ _) λ _. tt

pub ok_packaged : {A : Type 0} (r : Result A) (a : A) → r ≡ ok a → IsPackaged r
ok_packaged r a h = subst IsPackaged (sym h) tt

-- A read of a register that is one byte.
pub build_read_packaged :
    (register parameter : ℕ)
    → register < 256
    → parameter < 2 ^ 32
    → IsPackaged (build_read register parameter 0)
unfolding build_read bytes_of pack_uint
build_read_packaged register parameter h k =
    rw (lt→ltb register 256 h, lt→ltb parameter (2 ^ 32) k) tt

pub register_small : (r : Register) → register_value r < 256
register_small Register.state = omega arith
register_small _ = omega arith

module _ (w : World) where
  pub request-Packs : (frame : Bytes) (register : ℕ) → Packs (request w frame register)
  unfolding request
  request-Packs frame register = record {
    packs = λ s i.
        let (r, c) = exchange true (w.events s.handed frame) frame register s.client in
        let (sound, idle) =
          exchange-IsSound frame register s.client i true (w.events s.handed frame) in
        if_packs (w.connected s.handed) (r, record { client = c; handed = s.handed ++ frame ∷ [] })
          (raise connection_error, s) (sound_packaged register (get_or frame 3 0) r sound, idle)
          (refl, i);
  }

  pub read_raw-Packs : (r : Register) → Packs (read_raw w (register_value r) 0)
  unfolding read_raw
  read_raw-Packs r =
      bind-Packs _ _
        (lift-Packs _ (build_read_packaged (register_value r) 0 (register_small r) (omega arith)))
        λ frame.
          bind-Packs _ _ (request-Packs frame (register_value r))
            λ payload. lift-Packs _ (value_bytes_packaged payload)

  pub read_uint-Packs : (r : Register) → Packs (read_uint w r)
  unfolding read_uint
  read_uint-Packs r =
      bind-Packs _ _ (read_raw-Packs r) λ raw. lift-Packs _ (decode_uint_packaged raw)
