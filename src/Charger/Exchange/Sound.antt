-- ===== src/Charger/Exchange/Sound.antt =====
-- The whole of a request, over any list of events.
use spinev_ble.Base.{
  ℕ, suc, ◌≡◌, refl, ap, Bool, true, false, List, [], ◌∷◌, ◌++◌, length, get_or, arith,
}
use spinev_ble.Base.Dict.{insert}
use spinev_ble.Models.{Bytes}
use spinev_ble.Charger.State.{pending, cancelled, Client}
use spinev_ble.Charger.Exchange.{
  Event, Run, step, run_events, begin, exchange, outcome, with_deadline,
}
use spinev_ble.Charger.Exchange.Held.{waiting}
use spinev_ble.Charger.Exchange.Invariant.{
  IsSound, InFlight, going, over, is_open, run_events-InFlight, deadline_ends,
}

-- No request and no write is in progress.
abbrev pub IsIdle : Client → Type 0
IsIdle c = (c.waiters ≡ []) × (c.sends ≡ [])

pub length-snoc {ℓ} : {A : Type ℓ} (xs : List A) (x : A) → length (xs ++ x ∷ []) ≡ suc (length xs)
length-snoc [] x = refl
length-snoc (y ∷ xs) x = ap suc (length-snoc xs x)

pub get_or-snoc {ℓ} : {A : Type ℓ} (xs : List A) (x d : A) → get_or (xs ++ x ∷ []) (length xs) d ≡ x
get_or-snoc [] x d = refl
get_or-snoc (y ∷ xs) x d = get_or-snoc xs x d

pub run_events-append :
    (register i : ℕ) (run : Run) (xs ys : List Event)
    → run_events register i run (xs ++ ys) ≡ run_events register i (run_events register i run xs) ys
unfolding run_events
run_events-append register i run [] ys = refl
run_events-append register i run (x ∷ xs) ys =
    run_events-append register i (step register i run x) xs ys

module _ (frame : Bytes) (register : ℕ) (c : Client) (idle : IsIdle c) where
  begin-InFlight : InFlight register (length c.futures) (get_or frame 3 0) (begin frame register c)
  unfolding begin insert
  begin-InFlight = going refl (
      waiting (omega (arith, length-snoc c.futures pending)) idle.1 (rw (idle.0))
        (get_or-snoc c.futures pending cancelled))

  ended :
      (run : Run)
      → InFlight register (length c.futures) (get_or frame 3 0) run
      → is_open run.phase ≡ false
      → IsSound register (get_or frame 3 0) (outcome run.phase) × IsIdle run.client
  ended run (going o h) e = cc
  ended run (over r f w s m) e = (rw f m, (w, s))

  end_of : List Event → Run
  end_of events =
      run_events register (length c.futures) (begin frame register c) (with_deadline events)

  end_of-ended :
      (events : List Event)
      → IsSound register (get_or frame 3 0) (outcome (end_of events).phase)
        × IsIdle (end_of events).client
  unfolding end_of
  end_of-ended events =
      ended _ (run_events-InFlight _ _ _ (with_deadline events) _ begin-InFlight) closed
    where
      closed :
          is_open
            (run_events register
              (length c.futures)
              (begin frame register c)
              (with_deadline events)).phase
          ≡ false
      closed =
          rw run_events-append (unfold run_events in deadline_ends _ _ (get_or frame 3 0) _ _ refl)

  -- Over any request an idle client becomes idle again, whatever the transport and the clock do,
  -- and the request returns a reply with the register and the flag that were sent, or raises a
  -- package error.
  pub exchange-IsSound :
      (connected : Bool) (events : List Event)
      → let (r, c') = exchange connected events frame register c in
        IsSound register (get_or frame 3 0) r × IsIdle c'
  unfolding exchange end_of
  exchange-IsSound true events = end_of-ended events
  exchange-IsSound false events = (refl, idle)
