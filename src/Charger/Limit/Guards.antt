-- ===== src/Charger/Limit/Guards.antt =====
-- The checks of `async_set_current_limit`.
use spinev_ble.Base.{ℕ, ◌≡◌, refl, sym, ap, ◌∙◌, Bool, true, false, not, ◌&&◌}
use spinev_ble.Errors.{SpinEvError, ok, raise, require, value_error, busy_error}
use spinev_ble.Const.States.{is_session_open}
use spinev_ble.Float.{Floats}
use spinev_ble.Charger.Session.{World, Session, M, lift, ◌>>=◌}
use spinev_ble.Charger.Session.Steps.{bind_ok, bind_err, bind_inv}
use spinev_ble.Charger.Reads.{get_state_value}
use spinev_ble.Charger.Limit.{check_no_session, write_limit, set_current_limit}

require_inv : (b : Bool) (e : SpinEvError) {u : Unit {0}} → require b e ≡ ok u → b ≡ true
require_inv true e h = refl
require_inv false e h = cc

require-not : (b : Bool) (e : SpinEvError) → b ≡ true → require (not b) e ≡ raise e
require-not b e h = rw h refl

not-true : (b : Bool) → not b ≡ true → b ≡ false
not-true true h = cc
not-true false h = refl

check_no_session_busy :
    (w : World) (s t : Session) (v : ℕ)
    → get_state_value w s ≡ (ok v, t)
    → is_session_open v ≡ true
    → check_no_session w false s ≡ (raise busy_error, t)
unfolding check_no_session
check_no_session_busy w s t v e o =
    bind_ok (get_state_value w) (λ v. lift (require (not (is_session_open v)) busy_error)) e
    ∙ ap (λ r. (r, t)) (require-not (is_session_open v) busy_error o)

check_no_session_inv :
    (w : World) (s : Session) {u : Unit {0}}
    → (check_no_session w false s).0 ≡ ok u
    → (v : ℕ) × ((get_state_value w s).0 ≡ ok v) × (is_session_open v ≡ false)
unfolding check_no_session
check_no_session_inv w s h =
    let (v, e, g) =
      bind_inv (get_state_value w) (λ v. lift (require (not (is_session_open v)) busy_error)) s h in
    (
      v,
      ap (λ p. p.0) e,
      not-true (is_session_open v)
          (require_inv (not (is_session_open v)) busy_error (sym (ap (λ p. p.0) g) ∙ h)),
    )

module _ (w : World) (f : Floats) (amps max_amps : f.Float) (b : Bool) (s : Session) where
  range : Bool
  range = f.leb f.min_current amps && f.leb amps max_amps

  first : M (Unit {0})
  unfolding range
  first = lift (require range value_error)

  -- A limit below 6 A or above the caller's maximum is refused with a value error, whatever the
  -- charger does: nothing is sent, and the client is as it was.
  pub set_current_limit_refuses :
      (allow : Bool)
      → (f.leb f.min_current amps && f.leb amps max_amps) ≡ false
      → set_current_limit w f amps max_amps b allow s ≡ (raise value_error, s)
  unfolding set_current_limit first range
  set_current_limit_refuses allow h =
      bind_err first (λ _. check_no_session w allow >>= λ _. write_limit w f amps b)
        (ap (λ t. (require t value_error, s)) h)

  -- Without the override, when the state that is read is one of an open session, the change is
  -- refused as busy, and nothing but the read of the state was done.
  set_current_limit_busy :
      (v : ℕ) (t : Session)
      → (f.leb f.min_current amps && f.leb amps max_amps) ≡ true
      → get_state_value w s ≡ (ok v, t)
      → is_session_open v ≡ true
      → set_current_limit w f amps max_amps b false s ≡ (raise busy_error, t)
  unfolding set_current_limit first range
  set_current_limit_busy v t h e o =
      bind_ok first (λ _. check_no_session w false >>= λ _. write_limit w f amps b)
        (ap (λ t. (require t value_error, s)) h)
      ∙ bind_err (check_no_session w false) (λ _. write_limit w f amps b)
          (check_no_session_busy w s t v e o)

  -- A change that returns without the override was of a limit in range, and behind a read of the
  -- state, as first thing, that gave a number of no open session.
  pub set_current_limit_guarded :
      (set_current_limit w f amps max_amps b false s).0 ≡ ok tt
      → ((f.leb f.min_current amps && f.leb amps max_amps) ≡ true)
        × ((v : ℕ) × ((get_state_value w s).0 ≡ ok v) × (is_session_open v ≡ false))
  unfolding set_current_limit first range
  set_current_limit_guarded h =
      let (_, e, g) =
        bind_inv first (λ _. check_no_session w false >>= λ _. write_limit w f amps b) s h in
      let h' = sym (ap (λ p. p.0) g) ∙ h in
      let (_, q, _) = bind_inv (check_no_session w false) (λ _. write_limit w f amps b) s h' in
      (require_inv _ value_error (ap (λ p. p.0) e), check_no_session_inv w s (ap (λ p. p.0) q))
