-- ===== src/Protocol/Text/Strip.antt =====
-- `str.strip`, as the text methods and the command line use it.
use mathlib.Core.List.{reverse, reverse-append, reverse-reverse}
use spinev_ble.Base.{
  ◌≡◌, refl, sym, ap, ◌∙◌, Bool, true, not, [], ◌∷◌, ◌++◌, Bool-cases, inl, inr, arith,
}
use spinev_ble.Models.{Text}
use spinev_ble.Protocol.Text.{is_space, lstrip, strip}

-- No white space at the beginning.
abbrev pub is_solid : Text → Bool
is_solid [] = true
is_solid (c ∷ s) = not (is_space c)

lstrip-solid : (s : Text) → is_solid s ≡ true → lstrip s ≡ s
unfolding lstrip
lstrip-solid [] h = refl
lstrip-solid (c ∷ s) h = ground (arith, h)

solid-lstrip : (s : Text) → is_solid (lstrip s) ≡ true
unfolding lstrip
solid-lstrip [] = refl
solid-lstrip (c ∷ s) = ground (arith, solid-lstrip s)

solid_first : (s t : Text) → is_solid (s ++ t) ≡ true → is_solid s ≡ true
solid_first [] t h = refl
solid_first (c ∷ s) t h = h

-- What is stripped at the front.
lstrip_part : (s : Text) → (space : Text) × (s ≡ space ++ lstrip s)
unfolding lstrip
lstrip_part [] = ([], refl)
lstrip_part (c ∷ s) = elim (Bool-cases (is_space c)) [
  | inl h ↦ let (space, e) = lstrip_part s in (c ∷ space, rw h (ap (λ (r : Text). c ∷ r) e))
  | inr h ↦ ([], rw h refl)
]

-- What is stripped at the end.
rstrip_part : (s : Text) → (space : Text) × (s ≡ reverse (lstrip (reverse s)) ++ space)
rstrip_part s =
    let (space, e) = lstrip_part (reverse s) in
    (
      reverse space,
      sym (reverse-reverse s) ∙ ap reverse e ∙ reverse-append space (lstrip (reverse s)),
    )

strip-solid : (s : Text) → is_solid (strip s) ≡ true
unfolding strip
strip-solid s =
    let (space, e) = rstrip_part (lstrip s) in
    solid_first (reverse (lstrip (reverse (lstrip s)))) space (ap is_solid (sym e) ∙ solid-lstrip s)

-- Stripping a text that begins with no space.
strip-of-solid : (s : Text) → is_solid s ≡ true → strip s ≡ reverse (lstrip (reverse s))
unfolding strip
strip-of-solid s h = ap (λ t. reverse (lstrip (reverse t))) (lstrip-solid s h)

solid-append : (s t : Text) → is_solid s ≡ true → is_solid t ≡ true → is_solid (s ++ t) ≡ true
solid-append [] t h k = k
solid-append (c ∷ s) t h k = h

reverse-strip : (s : Text) → reverse (strip s) ≡ lstrip (reverse (lstrip s))
unfolding strip
reverse-strip s = reverse-reverse (lstrip (reverse (lstrip s)))

reverse-prefixed : (p s : Text) → reverse (p ++ strip s) ≡ lstrip (reverse (lstrip s)) ++ reverse p
reverse-prefixed p s =
    reverse-append p (strip s) ∙ ap (λ (t : Text). t ++ reverse p) (reverse-strip s)

-- A stripped text behind a prefix that has no white space at its ends is stripped.
pub strip-prefixed :
    (p s : Text)
    → is_solid p ≡ true
    → is_solid (reverse p) ≡ true
    → strip (p ++ strip s) ≡ p ++ strip s
strip-prefixed p s h k =
    let kept = lstrip (reverse (lstrip s)) in
    strip-of-solid (p ++ strip s) (solid-append p (strip s) h (strip-solid s))
    ∙ ap (λ t. reverse (lstrip t)) (reverse-prefixed p s)
    ∙ ap reverse (
        lstrip-solid (kept ++ reverse p)
          (solid-append kept (reverse p) (solid-lstrip (reverse (lstrip s))) k))
    ∙ ap reverse (sym (reverse-prefixed p s))
    ∙ reverse-reverse (p ++ strip s)

pub strip_idem : (s : Text) → strip (strip s) ≡ strip s
strip_idem s = strip-prefixed [] s refl refl

-- A text without white space at its ends, behind which comes nothing but what is stripped.
pub strip-between :
    (s back : Text)
    → is_solid (s ++ back) ≡ true
    → lstrip (reverse back ++ reverse s) ≡ reverse s
    → strip (s ++ back) ≡ s
strip-between s back h k =
    strip-of-solid (s ++ back) h
    ∙ ap (λ t. reverse (lstrip t)) (reverse-append s back)
    ∙ ap reverse k
    ∙ reverse-reverse s

pub strip_space : (s : Text) → strip (b' ' ∷ s) ≡ strip s
unfolding strip lstrip is_space
strip_space s = refl
