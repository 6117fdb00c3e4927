-- ===== src/Cli/Ocpp/Harmless.antt =====
-- The runs of the `ocpp` command that leave the charger alone.
use spinev_ble.Base.{
  ◌≡◌, refl, sym, ap, subst, ◌⊎◌, Bool, true, false, Option, none, some, [], ◌∷◌, if◌then◌else◌,
  inl, inr,
}
use spinev_ble.Base.Int.{ℤ}
use spinev_ble.Errors.{Result, ok, err}
use spinev_ble.Models.{Text, OcppConfig}
use spinev_ble.Protocol.Clock.Packing.{IsBetween}
use spinev_ble.Charger.Session.{World, Session}
use spinev_ble.Charger.Session.Quiet.{HasOnlyRead}
use spinev_ble.Charger.Calls.Monitor.{get_ocpp_config-IsQuiet}
use spinev_ble.Charger.Reads.{get_ocpp_config}
use spinev_ble.Charger.Settings.Methods.{set_ocpp_config}
use spinev_ble.Charger.Settings.Setters.{set_ocpp_config_refuses}
use spinev_ble.Cli.{Ended, done}
use spinev_ble.Cli.Ocpp.{
  OcppArgs, OcppReport, or_current, chosen_port, same_config, unchanged, with_id, wanted_ocpp,
  end_write, write_wanted, point_to, behind_read, cmd_ocpp,
}

module _ (is_ip : Text → Bool) (w : World) (args : OcppArgs) where
  -- Without `--host`, or with a `--port` that is not one of 1 to 65535.
  abbrev pub IsHarmless : Type 0
  IsHarmless = (args.host ≡ none) ⊎ ((p : ℤ) × (args.port ≡ some p) × (¬ IsBetween 1 p 65535))

  if_stays :
      (b : Bool) (x y : Ended OcppReport × Session) (s : Session)
      → x.1 ≡ s
      → y.1 ≡ s
      → (if b then x else y).1 ≡ s
  if_stays true x y s h k = h
  if_stays false x y s h k = k

  write_refused :
      (current d : OcppConfig) (s : Session)
      → ¬ IsBetween 1 d.port 65535
      → (write_wanted is_ip w current (done d) s).1 ≡ s
  write_refused current d s out =
      if_stays (same_config d current) (done unchanged, s)
        (end_write is_ip w current d (set_ocpp_config w d true s)) s refl
        (ap (λ r. (end_write is_ip w current d r).1) (set_ocpp_config_refuses w s d true (inr out)))

  bad_port :
      (host : Text) (current : OcppConfig) (id : Text) (p : ℤ) (s : Session)
      → args.port ≡ some p
      → ¬ IsBetween 1 p 65535
      → (write_wanted is_ip w current (with_id is_ip args host current id) s).1 ≡ s
  bad_port host current [] p s h out = refl
  bad_port host current (c ∷ id) p s h out =
      write_refused current _ s
        (subst (λ q. ¬ IsBetween 1 (chosen_port q current.port) 65535) (sym h) out)

  stays :
      (o : Option Text) (current : OcppConfig) (s : Session)
      → args.host ≡ o
      → IsHarmless
      → (point_to is_ip w args o current s).1 ≡ s
  unfolding wanted_ocpp
  stays none current s h harmless = refl
  stays (some host) current s h (inl k) = cc
  stays (some host) current s h (inr (p, k, out)) =
      bad_port host current (or_current args.charge_point_id current.charge_point_id) p s k out

  behind_read_stays :
      (r : Result OcppConfig) (s : Session) → IsHarmless → (behind_read is_ip w args (r, s)).1 ≡ s
  behind_read_stays (ok current) s h = stays args.host current s refl h
  behind_read_stays (err e) s h = refl

  only_read : (s : Session) → HasOnlyRead s (get_ocpp_config w s).1
  only_read s = (get_ocpp_config-IsQuiet w).keeps s

  -- The `ocpp` command without `--host`, or with a port that is not one of 1 to 65535, only reads:
  -- whatever the charger answers and whatever the other arguments are, the client and the frames
  -- that it sent are as they are behind the reads, and none of these frames has the flag of a write.
  pub cmd_ocpp_harmless :
      (s : Session)
      → IsHarmless
      → ((cmd_ocpp is_ip w args s).1 ≡ (get_ocpp_config w s).1)
        × HasOnlyRead s (cmd_ocpp is_ip w args s).1
  unfolding cmd_ocpp
  cmd_ocpp_harmless s h =
      let (r, t) = get_ocpp_config w s in
      let stays = behind_read_stays r t h in
      (stays, subst (λ (u : Session). HasOnlyRead s u) (sym stays) (only_read s))
