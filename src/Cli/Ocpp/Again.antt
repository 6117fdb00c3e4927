-- ===== src/Cli/Ocpp/Again.antt =====
-- The `ocpp` command run twice with the same arguments.
use spinev_ble.Base.{
  ℕ, ◌≡◌, refl, sym, ap, subst, ◌∙◌, Bool, true, Option, none, some, [], ◌∷◌, same_refl,
  if◌then◌else◌, Bool-cases, inl, inr, arith,
}
use spinev_ble.Base.Int.{ℤ, pos, negsuc}
use spinev_ble.Errors.{Result, ok, err}
use spinev_ble.Models.{Text, OcppConfig}
use spinev_ble.Charger.Session.{World, Session}
use spinev_ble.Charger.Reads.{get_ocpp_config}
use spinev_ble.Charger.Settings.Methods.{set_ocpp_config}
use spinev_ble.Cli.{Ended, done, stopped}
use spinev_ble.Cli.Ocpp.{
  OcppArgs, or_current, chosen_port, chosen_path, same_ℤ, same_config, unchanged, written, with_id,
  wanted_ocpp, end_write, write_wanted, point_to, behind_read, cmd_ocpp,
}

same_ℤ_refl : (a : ℤ) → same_ℤ a a ≡ true
same_ℤ_refl (pos n) = ground arith
same_ℤ_refl (negsuc n) = ground arith

same_config_refl : (c : OcppConfig) → same_config c c ≡ true
unfolding same_config
same_config_refl c =
    rw (same_refl c.host, same_ℤ_refl c.port, same_refl c.path, same_refl c.charge_point_id) refl

id_again : (o : Option Text) (d : Text) → or_current o (or_current o d) ≡ or_current o d
id_again none d = refl
id_again (some []) d = refl
id_again (some (c ∷ s)) d = refl

port_again : (o : Option ℤ) (d : ℤ) → chosen_port o (chosen_port o d) ≡ chosen_port o d
port_again none d = refl
port_again (some p) d = refl

path_again : (o : Option Text) (d : Text) → chosen_path o (chosen_path o d) ≡ chosen_path o d
path_again none [] = refl
path_again none (c ∷ s) = refl
path_again (some p) d = refl

done_inv : {a b : OcppConfig} → done a ≡ done b → a ≡ b
done_inv h = cc

module _ (is_ip : Text → Bool) (args : OcppArgs) where
  settled :
      (host : Text) (current : OcppConfig) (c : ℕ) (s : Text)
      → or_current args.charge_point_id current.charge_point_id ≡ c ∷ s
      → (settled_config : OcppConfig) × (with_id is_ip args host current (c ∷ s)
          ≡ done settled_config)
        × (wanted_ocpp is_ip args host settled_config ≡ done settled_config)
  unfolding wanted_ocpp
  settled host current c s e =
      let id =
        ap (or_current args.charge_point_id) (sym e)
        ∙ id_again args.charge_point_id current.charge_point_id
        ∙ e in
      (_, refl, rw (id, port_again args.port current.port, path_again args.path current.path) refl)

  with_id_again :
      (host : Text) (current wanted : OcppConfig) (id : Text)
      → or_current args.charge_point_id current.charge_point_id ≡ id
      → with_id is_ip args host current id ≡ done wanted
      → wanted_ocpp is_ip args host wanted ≡ done wanted
  with_id_again host current wanted [] e h = cc
  with_id_again host current wanted (c ∷ s) e h =
      let (r, made, again) = settled host current c s e in
      subst (λ x. wanted_ocpp is_ip args host x ≡ done x) (done_inv (sym made ∙ h)) again

  wanted_ocpp_again :
      (host : Text) (current wanted : OcppConfig)
      → wanted_ocpp is_ip args host current ≡ done wanted
      → wanted_ocpp is_ip args host wanted ≡ done wanted
  unfolding wanted_ocpp
  wanted_ocpp_again host current wanted h =
      with_id_again host current wanted (or_current args.charge_point_id current.charge_point_id)
        refl h

  module _ (w : World) where
    end_write_inv :
        (c d current wanted : OcppConfig) (p : Result (Unit {0}) × Session)
        → (end_write is_ip w c d p).0 ≡ done (written current wanted)
        → (c ≡ current) × (d ≡ wanted)
    end_write_inv c d current wanted (ok _, t) h = (cc, cc)
    end_write_inv c d current wanted (err e, t) h = cc

    write_wanted_inv :
        (c current wanted : OcppConfig) (q : Ended OcppConfig) (s : Session)
        → (write_wanted is_ip w c q s).0 ≡ done (written current wanted)
        → (c ≡ current) × (q ≡ done wanted)
    write_wanted_inv c current wanted (stopped x) s h = cc
    write_wanted_inv c current wanted (done d) s h = elim (Bool-cases (same_config d c)) [
      | inl k ↦ absurd (
          distinct (
            sym (
              ap
                (λ b.
                  (if b
                    then (done unchanged, s)
                    else end_write is_ip w c d (set_ocpp_config w d true s)).0)
                k)
            ∙ h))
      | inr k ↦
          let (a, b) = end_write_inv c d current wanted (set_ocpp_config w d true s) (
            sym (
              ap
                (λ b.
                  (if b
                    then (done unchanged, s)
                    else end_write is_ip w c d (set_ocpp_config w d true s)).0)
                k)
            ∙ h) in
          (a, ap done b)
    ]
      where
        distinct : ¬ (done unchanged ≡ done (written current wanted))
        distinct h = cc

    point_to_inv :
        (o : Option Text) (c current wanted : OcppConfig) (s : Session)
        → (point_to is_ip w args o c s).0 ≡ done (written current wanted)
        → (host : Text) × (o ≡ some host) × (wanted_ocpp is_ip args host current ≡ done wanted)
    point_to_inv none c current wanted s h = cc
    point_to_inv (some host) c current wanted s h =
        let (a, b) = write_wanted_inv c current wanted (wanted_ocpp is_ip args host c) s h in
        (host, refl, ap (wanted_ocpp is_ip args host) (sym a) ∙ b)

    behind_read_inv :
        (current wanted : OcppConfig) (p : Result OcppConfig × Session)
        → (behind_read is_ip w args p).0 ≡ done (written current wanted)
        → (host : Text) × (args.host ≡ some host)
          × (wanted_ocpp is_ip args host current ≡ done wanted)
    behind_read_inv current wanted (ok c, t) h = point_to_inv args.host c current wanted t h
    behind_read_inv current wanted (err e, t) h = cc

    -- The `ocpp` command changes the charger once: when a run reports settings that it wrote, and
    -- the charger has them at a later run with the same arguments, then that run finds nothing to
    -- change, and sends nothing behind its reads, so that the charger is not restarted again.
    pub cmd_ocpp_again :
        (current wanted : OcppConfig) (s s' t : Session)
        → (cmd_ocpp is_ip w args s).0 ≡ done (written current wanted)
        → get_ocpp_config w s' ≡ (ok wanted, t)
        → cmd_ocpp is_ip w args s' ≡ (done unchanged, t)
    unfolding cmd_ocpp
    cmd_ocpp_again current wanted s s' t h g =
        let (host, asked, made) = behind_read_inv current wanted (get_ocpp_config w s) h in
        rw (g, asked, wanted_ocpp_again host current wanted made, same_config_refl wanted) refl
