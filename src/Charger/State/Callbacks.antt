-- ===== src/Charger/State/Callbacks.antt =====
-- The two callbacks, when one request is in flight and when none is.
use spinev_ble.Base.{
  ℕ, zero, suc, ◌<◌, ◌≡◌, refl, Bool, true, false, ◌&&◌, some, List, [], ◌∷◌, length, get_or, set,
  ◌==◌, arith,
}
use spinev_ble.Base.Dict.{Dict, lookup, erase}
use spinev_ble.Models.{Bytes}
use spinev_ble.Protocol.Frames.{is_reply}
use spinev_ble.Protocol.History.Records.{history-not-reply}
use spinev_ble.Charger.State.{
  result, Client, settle, disconnected, fail_waiters, fail_aborts, on_disconnect, answer, on_notify,
}

-- A payload answers a request for a register with a flag.
abbrev pub matches : ℕ → ℕ → Bytes → Bool
matches register flag p = is_reply p && (get_or p 2 0 == register) && (get_or p 3 0 == flag)

-- The dictionary with one waiter.
abbrev pub one_waiter : ℕ → ℕ → ℕ → Dict (ℕ × ℕ)
one_waiter register i flag = (register, (i, flag)) ∷ []

pub get_or-set_self {ℓ} :
    {A : Type ℓ} (xs : List A) (i : ℕ) (v d : A) → i < length xs → get_or (set xs i v) i d ≡ v
get_or-set_self [] i v d h = absurd (omega arith)
get_or-set_self (x ∷ xs) zero v d h = refl
get_or-set_self (x ∷ xs) (suc i) v d h = get_or-set_self xs i v d (omega arith)

module _ (register i flag : ℕ) (p : Bytes) (c : Client) where
  -- The reply that was asked for is handed to the request, and its waiter is gone.
  pub on_notify_match :
      c.waiters ≡ one_waiter register i flag
      → matches register flag p ≡ true
      → on_notify p c ≡ record c { waiters = []; futures = settle c.futures i (result p) }
  unfolding on_notify answer
  on_notify_match w m = ground (arith, history-not-reply p, rw (← w) at found, rw (← w) at popped)
    where
      asked : get_or p 2 0 ≡ register
      asked = ground arith

      found : lookup (get_or p 2 0) (one_waiter register i flag) ≡ some (i, flag)
      found = unfold lookup in ground (arith, asked)

      popped : erase (get_or p 2 0) (one_waiter register i flag) ≡ []
      popped = unfold erase in ground (arith, asked)

  -- Anything else leaves the waiter and the futures as they are.
  pub on_notify_other :
      c.waiters ≡ one_waiter register i flag
      → matches register flag p ≡ false
      → ((on_notify p c).waiters ≡ c.waiters) × ((on_notify p c).futures ≡ c.futures)
  unfolding on_notify lookup answer
  on_notify_other w m = ground arith

pub on_notify_idle :
    (p : Bytes) (c : Client)
    → c.waiters ≡ []
    → ((on_notify p c).waiters ≡ []) × ((on_notify p c).futures ≡ c.futures)
unfolding on_notify lookup
on_notify_idle p c w = ground arith

pub on_notify_keeps :
    (p : Bytes) (c : Client)
    → ((on_notify p c).sends ≡ c.sends) × ((on_notify p c).password ≡ c.password)
unfolding on_notify
on_notify_keeps p c = ground arith

-- With one request in flight and no write, a disconnect fails the request and empties the client.
pub on_disconnect_one :
    (register i flag : ℕ) (c : Client)
    → c.waiters ≡ one_waiter register i flag
    → c.sends ≡ []
    → on_disconnect c ≡ record c {
      futures = settle c.futures i disconnected;
      waiters = [];
      sends = [];
      bulk_event = true;
    }
unfolding on_disconnect fail_waiters fail_aborts
on_disconnect_one register i flag c w s = ground arith

pub on_disconnect_idle :
    (c : Client)
    → c.waiters ≡ []
    → c.sends ≡ []
    → on_disconnect c ≡ record c { waiters = []; sends = []; bulk_event = true }
unfolding on_disconnect fail_waiters fail_aborts
on_disconnect_idle c w s = ground arith
