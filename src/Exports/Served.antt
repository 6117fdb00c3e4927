-- ===== src/Exports/Served.antt =====
-- The exported names, with and without bleak.
use Prim.Native.String.{String}
use text.Mathlib.Text.{◌==◌}
use text.Mathlib.TextEquality.{eq_iff}
use spinev_ble.Base.{
  has_name, ◌≡◌, refl, sym, ap, ◌∙◌, Bool, true, false, not, ◌||◌, ◌&&◌, List, [], ◌∷◌, all,
  Bool-cases, ◌⊎◌, inl, inr, &&-true,
}
use spinev_ble.Exports.{
  Lookup, object_of, import_error, attribute_error, version_text, transport_exports,
  package_exports, package_lazy, transport_attribute, package_attribute,
}

abbrev pub is_object : String → Lookup → Bool
is_object name (object_of m n) = n == name
is_object name version_text = name == "__version__"
is_object name _ = false

abbrev same_lookup : Lookup → Lookup → Bool
same_lookup (object_of m n) (object_of k l) = m == k && n == l
same_lookup version_text version_text = true
same_lookup import_error import_error = true
same_lookup attribute_error attribute_error = true
same_lookup _ _ = false

same_lookup→eq : (x y : Lookup) → same_lookup x y ≡ true → x ≡ y
same_lookup→eq (object_of m n) (object_of k l) h =
    let (a, b) = &&-true (m == k) (n == l) h in
    ap (λ a. object_of a n) ((eq_iff m k).0 a) ∙ ap (object_of k) ((eq_iff n l).0 b)
same_lookup→eq version_text version_text h = refl
same_lookup→eq import_error import_error h = refl
same_lookup→eq attribute_error attribute_error h = refl
same_lookup→eq _ _ h = cc

-- A test of every name of a list holds of each.
all-has_name :
    (p : String → Bool) (name : String) (names : List String)
    → all p names ≡ true
    → has_name name names ≡ true
    → p name ≡ true
all-has_name p name [] h m = cc
all-has_name p name (n ∷ ns) h m =
    let (a, b) = &&-true (p n) (all p ns) h in
    elim (Bool-cases (name == n)) [
      | inl e ↦ ap p ((eq_iff name n).0 e) ∙ a
      | inr e ↦ all-has_name p name ns b (ap (λ x. x || has_name name ns) (sym e) ∙ m)
    ]

-- The object of that name, or ImportError for a name of the Bluetooth transport without bleak.
abbrev pub is_due : Bool → String → Lookup → Bool
is_due bleak name import_error = has_name name package_lazy && not bleak
is_due bleak name x = is_object name x && (bleak || not (has_name name package_lazy))

-- The transports do not export the name, or have the same object for it.
abbrev agrees : Bool → String → Bool
agrees bleak name =
    not (has_name name transport_exports)
    || same_lookup (package_attribute bleak name) (transport_attribute bleak name)

all_due :
    (bleak : Bool) → all (λ n. is_due bleak n (package_attribute bleak n)) package_exports ≡ true
unfolding package_attribute
all_due true = refl
all_due false = refl

all_agree : (bleak : Bool) → all (agrees bleak) package_exports ≡ true
unfolding package_attribute transport_attribute
all_agree true = refl
all_agree false = refl

-- Every name of the package's `__all__` can be had: it is the object of that name, but for the two names
-- of the Bluetooth transport without bleak, which raise ImportError. A name that the transports export as
-- well is the same object there, or the same error.
pub package_attribute-is_due :
    (bleak : Bool) (name : String)
    → has_name name package_exports ≡ true
    → (is_due bleak name (package_attribute bleak name) ≡ true)
      × ((has_name name transport_exports ≡ false)
          ⊎ (package_attribute bleak name ≡ transport_attribute bleak name))
package_attribute-is_due bleak name m =
    let agree = all-has_name (agrees bleak) name package_exports (all_agree bleak) m in
    (
      all-has_name (λ n. is_due bleak n (package_attribute bleak n)) name package_exports
          (all_due bleak) m,
      elim (Bool-cases (has_name name transport_exports)) [
        | inl e ↦ inr (
            same_lookup→eq _ _ (
              ap
                (λ b.
                  not b
                  || same_lookup (package_attribute bleak name) (transport_attribute bleak name))
                (sym e)
              ∙ agree))
        | inr e ↦ inl e
      ],
    )
