-- ===== src/Charger/Session/Preserve.antt =====
-- What a method leaves true between the session that it begins in and the one that it ends in: the
-- rules for methods built from others, for any relation that composes.
use spinev_ble.Base.{◌≡◌, refl, Bool, true, false, if◌then◌else◌}
use spinev_ble.Errors.{Result, ok, err}
use spinev_ble.Charger.Session.{Session, M, pure, lift, ◌>>=◌}

pub record Relation : Type 1 where
  pub Between : Session → Session → Type 0
  pub same : (s : Session) → Between s s
  pub next : (s t u : Session) → Between s t → Between t u → Between s u

pub record Preserves (r : Relation) {A : Type 0} (m : M A) : Type 0 where
  pub keeps : (s : Session) → r.Between s (m s).1

module _ (r : Relation) where
  pub if_Between :
      {A : Type 0} (b : Bool) (s : Session) (p q : Result A × Session)
      → r.Between s p.1
      → r.Between s q.1
      → r.Between s (if b then p else q).1
  if_Between true s p q f g = f
  if_Between false s p q f g = g

  module _ {A B : Type 0} where
    bind_case :
        (f : A → M B) (s t : Session) (q : Result A)
        → ((a : A) → q ≡ ok a → Preserves r (f a))
        → r.Between s t
        → r.Between s (elim q as (λ _. Result B × Session) [ ok a ↦ f a t | err e ↦ (err e, t) ]).1
    bind_case f s t (ok a) k g = r.next s t (f a t).1 g ((k a refl).keeps t)
    bind_case f s t (err e) k g = g

    pub bind-Preserves :
        (m : M A) (f : A → M B)
        → Preserves r m
        → ((a : A) → Preserves r (f a))
        → Preserves r (m >>= f)
    bind-Preserves m f h k = record {
      keeps = λ s. bind_case f s (m s).1 (m s).0 (λ a _. k a) (h.keeps s);
    }

    -- Behind a pure part, with what it returned.
    pub lift_bind-Preserves :
        (q : Result A) (f : A → M B)
        → ((a : A) → q ≡ ok a → Preserves r (f a))
        → Preserves r (lift q >>= f)
    lift_bind-Preserves q f k = record { keeps = λ s. bind_case f s s q k (r.same s) }

  module _ {A : Type 0} where
    pub lift-Preserves : (q : Result A) → Preserves r (lift q)
    lift-Preserves q = record { keeps = r.same }

    pub pure-Preserves : (a : A) → Preserves r (pure a)
    pure-Preserves a = record { keeps = r.same }
