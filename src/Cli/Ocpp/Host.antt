-- ===== src/Cli/Ocpp/Host.antt =====
-- The host that the `ocpp` command writes.
use spinev_ble.Base.{
  ◌≡◌, refl, sym, ap, ◌∙◌, Bool, true, false, ◌∷◌, ◌++◌, if◌then◌else◌, Bool-cases, inl, inr,
}
use spinev_ble.Models.{Text, OcppConfig}
use spinev_ble.Protocol.Text.{is_space, strip}
use spinev_ble.Protocol.Text.Strip.{strip_idem, strip-prefixed}
use spinev_ble.Base.Int.{ℤ}
use spinev_ble.Cli.Ocpp.{
  behind_slash, strip_slashes, ocpp_url, dns_prefix, starts_with, remove_prefix, charger_host,
}

dns_marked : (s : Text) → starts_with dns_prefix (dns_prefix ++ s) ≡ true
unfolding starts_with
dns_marked s = refl

strip-dns : (s : Text) → strip (dns_prefix ++ strip s) ≡ dns_prefix ++ strip s
unfolding is_space
strip-dns s = strip-prefixed dns_prefix s refl refl

if_same : {A : Type 0} (b : Bool) (x : A) → (if b then x else x) ≡ x
if_same true x = refl
if_same false x = refl

module _ (is_ip : Text → Bool) where
  host-ip : (s : Text) → is_ip (strip s) ≡ true → charger_host is_ip s ≡ strip s
  unfolding charger_host
  host-ip s h = rw h refl

  host-marked :
      (s : Text) → starts_with dns_prefix (strip s) ≡ true → charger_host is_ip s ≡ strip s
  unfolding charger_host
  host-marked s h = rw h (if_same (is_ip (strip s)) (strip s))

  host-named :
      (s : Text)
      → is_ip (strip s) ≡ false
      → starts_with dns_prefix (strip s) ≡ false
      → charger_host is_ip s ≡ dns_prefix ++ strip s
  unfolding charger_host
  host-named s h k = rw (h, k) refl

  -- The text that stands for a stored host again: it is stripped, and kept as it is.
  settled :
      (s t : Text)
      → charger_host is_ip s ≡ t
      → strip t ≡ t
      → (charger_host is_ip t ≡ strip t)
      → charger_host is_ip (charger_host is_ip s) ≡ charger_host is_ip s
  settled s t e f g = ap (charger_host is_ip) e ∙ g ∙ f ∙ sym e

  host_settled :
      (s : Text)
      → (charger_host is_ip (charger_host is_ip s) ≡ charger_host is_ip s)
        × (remove_prefix dns_prefix (charger_host is_ip s) ≡ remove_prefix dns_prefix (strip s))
  unfolding remove_prefix
  host_settled s = elim (Bool-cases (is_ip (strip s))) [
    | inl h ↦ (
      settled s (strip s) (host-ip s h) (strip_idem s)
          (host-ip (strip s) (ap is_ip (strip_idem s) ∙ h)),
      ap (remove_prefix dns_prefix) (host-ip s h),
    )
    | inr h ↦ elim (Bool-cases (starts_with dns_prefix (strip s))) [
      | inl k ↦ (
        settled s (strip s) (host-marked s k) (strip_idem s)
            (host-marked (strip s) (ap (starts_with dns_prefix) (strip_idem s) ∙ k)),
        ap (remove_prefix dns_prefix) (host-marked s k),
      )
      | inr k ↦ (
        settled s (dns_prefix ++ strip s) (host-named s h k) (strip-dns s) (
            host-marked (dns_prefix ++ strip s)
              (ap (starts_with dns_prefix) (strip-dns s) ∙ dns_marked (strip s))),
        ap (remove_prefix dns_prefix) (host-named s h k) ∙ rw k refl,
      )
    ]
  ]

  -- The host that the command writes is one that it would write again as it is, and the address
  -- that it prints for it is that of the host that was asked for, without white space around it,
  -- whatever Python takes for an IP address.
  charger_host_settled :
      (str : ℤ → Text) (s : Text) (config : OcppConfig)
      → (charger_host is_ip (charger_host is_ip s) ≡ charger_host is_ip s)
        × (ocpp_url str (record config { host = charger_host is_ip s })
            ≡ ocpp_url str (record config { host = strip s }))
  unfolding ocpp_url
  charger_host_settled str s config =
      let (again, named) = host_settled s in
      (
        again,
        ap
            (λ (h : Text).
              (b'w' ∷ b's' ∷ b':' ∷ b'/' ∷ b'/' ∷ h)
              ++ (b':' ∷ str config.port)
              ++ behind_slash (strip_slashes config.path)
              ++ (b'/' ∷ config.charge_point_id))
            named,
      )
