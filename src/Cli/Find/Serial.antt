-- ===== src/Cli/Find/Serial.antt =====
-- The names that `_scan` takes.
use mathlib.Core.List.{reverse, reverse-append, append_assoc}
use spinev_ble.Base.{
  ℕ, zero, suc, ◌≡◌, refl, sym, ap, subst, ◌∙◌, ◌⊎◌, Bool, true, false, not, ◌||◌, List, [], ◌∷◌,
  ◌++◌, all, length, ◌==◌, ==_iff, inl, inr, arith, Bool-cases, &&-true, All,
}
use spinev_ble.Models.{Text}
use spinev_ble.Protocol.Text.{is_space, lstrip, strip}
use spinev_ble.Protocol.Text.Strip.{is_solid, strip-between, strip_space}
use spinev_ble.Cli.Find.{
  Device, name_of, is_hex, ends_hex, serial_matches, name_matches, scan, serial,
}

hex_solid : (c : ℕ) → is_hex c ≡ true → is_space c ≡ false
unfolding is_space
hex_solid c h = ground arith

lstrip_back :
    (d : ℕ) (s back : Text)
    → is_hex d ≡ true
    → (back ≡ []) ⊎ (back ≡ 10 ∷ [])
    → lstrip (reverse back ++ d ∷ s) ≡ d ∷ s
unfolding lstrip is_space
lstrip_back d s back h (inl e) = rw (e, hex_solid d h) refl
lstrip_back d s back h (inr e) = rw (e, hex_solid d h) refl

-- Four hexadecimal digits at the end, perhaps with a line break behind them.
ends_hex_inv :
    (s : Text)
    → ends_hex 4 s ≡ true
    → (a b c d : ℕ) × (back : Text) × (s ≡ a ∷ b ∷ c ∷ d ∷ back)
      × (all is_hex (a ∷ b ∷ c ∷ d ∷ []) ≡ true)
      × ((back ≡ []) ⊎ (back ≡ 10 ∷ []))
unfolding ends_hex
ends_hex_inv [] h = cc
ends_hex_inv (a ∷ []) h = ground (arith, h)
ends_hex_inv (a ∷ b ∷ []) h = ground (arith, h)
ends_hex_inv (a ∷ b ∷ c ∷ []) h = ground (arith, h)
ends_hex_inv (a ∷ b ∷ c ∷ d ∷ []) h = (a, b, c, d, [], refl, ground (arith, h), inl refl)
ends_hex_inv (a ∷ b ∷ c ∷ d ∷ e ∷ []) h =
    (a, b, c, d, e ∷ [], refl, ground (arith, h), inr (ground (arith, h)))
ends_hex_inv (a ∷ b ∷ c ∷ d ∷ e ∷ f ∷ s) h = ground (arith, h)

module _ (is_decimal : ℕ → Bool) where
  -- The name of a charger: twelve decimal digits, which are its serial, an underscore and four
  -- hexadecimal digits.
  abbrev pub IsChargerName : Text → Type 0
  IsChargerName name =
      (digits : Text) × (mac : Text) × (name ≡ digits ++ b'_' ∷ mac)
      × (length digits ≡ 12)
      × (all is_decimal digits ≡ true)
      × (length mac ≡ 4)
      × (all is_hex mac ≡ true)
      × (serial name ≡ digits)

  serial_matches_inv :
      (n : ℕ) (s : Text)
      → serial_matches is_decimal n s ≡ true
      → (digits : Text) × (rest : Text) × (s ≡ digits ++ b'_' ∷ rest)
        × (length digits ≡ n)
        × (all is_decimal digits ≡ true)
        × (ends_hex 4 rest ≡ true)
  unfolding serial_matches
  serial_matches_inv zero [] h = cc
  serial_matches_inv zero (c ∷ s) h =
      let (a, b) = &&-true (c == b'_') (ends_hex 4 s) h in
      ([], s, ap (λ (x : ℕ). x ∷ s) (ground (arith, a)), refl, refl, b)
  serial_matches_inv (suc n) [] h = cc
  serial_matches_inv (suc n) (c ∷ s) h =
      let (a, b) = &&-true (is_decimal c) (serial_matches is_decimal n s) h in
      let (digits, rest, e, l, d, m) = serial_matches_inv n s b in
      (c ∷ digits, rest, ap (λ (t : Text). c ∷ t) e, ap suc l, rw (a, d) refl, m)

  module _ (not_mark : is_decimal b'_' ≡ false)
      (not_space : (c : ℕ) → is_decimal c ≡ true → is_space c ≡ false) where
    serial-digits :
        (digits rest : Text)
        → all is_decimal digits ≡ true
        → serial (digits ++ b'_' ∷ rest) ≡ digits
    unfolding serial
    serial-digits [] rest h = refl
    serial-digits (c ∷ digits) rest h =
        let (a, b) = &&-true (is_decimal c) (all is_decimal digits) h in
        elim (Bool-cases (c == b'_')) [
          | inl k ↦ absurd (mark_apart c a (ground (arith, k)))
          | inr k ↦ rw k (ap (λ (t : Text). c ∷ t) (serial-digits digits rest b))
        ]
      where
        mark_apart : (c : ℕ) → is_decimal c ≡ true → ¬ (c ≡ b'_')
        mark_apart c a k = cc

    digits_solid :
        (n : ℕ) (digits rest : Text)
        → length digits ≡ suc n
        → all is_decimal digits ≡ true
        → is_solid (digits ++ rest) ≡ true
    digits_solid n [] rest l h = cc
    digits_solid n (c ∷ digits) rest l h =
        ap not (not_space c (&&-true (is_decimal c) (all is_decimal digits) h).0)

    stripped :
        (digits : Text) (a b c d : ℕ) (back : Text)
        → length digits ≡ 12
        → all is_decimal digits ≡ true
        → all is_hex (a ∷ b ∷ c ∷ d ∷ []) ≡ true
        → (back ≡ []) ⊎ (back ≡ 10 ∷ [])
        → strip (digits ++ b'_' ∷ a ∷ b ∷ c ∷ d ∷ back) ≡ digits ++ b'_' ∷ a ∷ b ∷ c ∷ d ∷ []
    stripped digits a b c d back l h x e =
        let mac = b'_' ∷ a ∷ b ∷ c ∷ d ∷ [] in
        let split = append_assoc digits mac back in
        ap strip (sym split)
        ∙ strip-between (digits ++ mac) back
            (ap is_solid split ∙ digits_solid 11 digits (mac ++ back) l h)
            (ap (λ t. lstrip (reverse back ++ t)) (reverse-append digits mac)
              ∙ lstrip_back d (c ∷ b ∷ a ∷ b'_' ∷ reverse digits) back (ground (arith, x)) e
              ∙ sym (reverse-append digits mac))

    named : (s : Text) → serial_matches is_decimal 12 s ≡ true → IsChargerName (strip s)
    named s h =
        let (digits, rest, e, l, ds, m) = serial_matches_inv 12 s h in
        let (a, b, c, d, back, er, x, end) = ends_hex_inv rest m in
        let name =
          ap strip (e ∙ ap (λ (t : Text). digits ++ b'_' ∷ t) er)
          ∙ stripped digits a b c d back l ds x end in
        (
          digits,
          a ∷ b ∷ c ∷ d ∷ [],
          name,
          l,
          ds,
          refl,
          x,
          ap serial name ∙ serial-digits digits (a ∷ b ∷ c ∷ d ∷ []) ds,
        )

    name_matches-named : (s : Text) → name_matches is_decimal s ≡ true → IsChargerName (strip s)
    unfolding name_matches
    name_matches-named [] h = cc
    name_matches-named (c ∷ s) h = elim (Bool-cases (serial_matches is_decimal 12 (c ∷ s))) [
      | inl k ↦ named (c ∷ s) k
      | inr k ↦
          let (a, b) = &&-true (c == b' ') (serial_matches is_decimal 12 s) (either h k) in
          subst IsChargerName
            (sym (strip_space s) ∙ ap (λ x. strip (x ∷ s)) (sym ((==_iff c 32).0 a))) (named s b)
    ]
      where
        either : {a b : Bool} → (a || b) ≡ true → b ≡ false → a ≡ true
        either h k = ground (arith, h, k)

    -- Every charger that a scan lists, whatever was discovered, has a name of the advertised form: a serial of twelve decimal digits, an underscore and four hexadecimal digits.
    -- The serial that the scan command prints is those twelve digits. Python's decimal digits are
    -- taken to have neither white space nor the underscore among them.
    pub scan-named : (ds : List Device) → All (λ m. IsChargerName m.1) (scan is_decimal ds)
    unfolding scan
    scan-named [] = tt
    scan-named (d ∷ ds) = elim (Bool-cases (name_matches is_decimal (name_of d))) [
      | inl h ↦ rw h (name_matches-named (name_of d) h, scan-named ds)
      | inr h ↦ rw h (scan-named ds)
    ]
