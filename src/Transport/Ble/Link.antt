-- ===== src/Transport/Ble/Link.antt =====
-- The Bluetooth transport as a transport of the interface, over bleak as it is documented: a
-- connection that succeeds has a client of its own, a closed client signals that its link is gone,
-- and a link that drops on its own is signalled once.
use spinev_ble.Base.{
  ℕ, suc, ◌≡◌, refl, Bool, true, false, Option, none, some, is_some, List, [], ◌∷◌, ◌++◌, ◌==◌,
  arith,
}
use spinev_ble.Errors.{Result, ok, err}
use spinev_ble.Transport.Contract.{
  Call, returned, Failure, no_link, no_subscription, Op, connects, refused, disconnects, drops,
  arrives, specified, specified_all, Transport, perform_all, CanAll, perform_all-Shows,
}
use spinev_ble.Transport.Ble.{
  Ble, new_ble, has_link, is_connected, connect, disconnect, handle_disconnect, handle_notify,
  keep_callbacks, established, subscribed,
}

-- The transport with the client that has a link, and the next new client.
pub record Linked (F D : Type 0) : Type 0 where
  pub ble : Ble F D
  pub live : Option ℕ
  pub fresh : ℕ

module _ {F D : Type 0} where
  abbrev pub unlinked : Linked F D
  unlinked = record { ble = new_ble; live = none; fresh = 0 }

abbrev pub is_live : Option ℕ → ℕ → Bool
is_live none c = false
is_live (some l) c = l == c

module _ {F D : Type 0} (up : ℕ → Bool) (f : F) (d : D) (b : Ble F D) where
  -- A connected transport is left as it is.
  pub connect_again :
      (link : Result ℕ) (notified : ℕ → Result (Unit {0}))
      → is_connected up b ≡ true
      → connect up f d link notified b ≡ (ok tt, b, [])
  unfolding connect
  connect_again link notified h = rw h refl

  pub connect_new :
      (link : Result ℕ) (notified : ℕ → Result (Unit {0}))
      → is_connected up b ≡ false
      → connect up f d link notified b ≡ established link notified (keep_callbacks f d b)
  unfolding connect
  connect_new link notified h = rw h refl

no_live : (c : Option ℕ) → has_link (is_live none) c ≡ false
no_live none = refl
no_live (some c) = refl

self : (c : ℕ) → (c == c) ≡ true
self c = ground arith

-- The outcome of opening the connection, and of subscribing.
abbrev pub link_of : Failure → ℕ → Result ℕ
link_of (no_link e) c = err e
link_of (no_subscription e) c = ok c

abbrev pub subscription_of : Failure → Result (Unit {0})
subscription_of (no_link e) = ok tt
subscription_of (no_subscription e) = err e

module _ {F D : Type 0} where
  -- A client that is closed signals that its link is gone.
  abbrev pub closed_calls : List ℕ → Ble F D → List (Call F D)
  closed_calls [] b = []
  closed_calls (c ∷ cs) b = handle_disconnect b ++ closed_calls cs b

  pub perform : Op F D → Linked F D → Linked F D × List (Call F D)
  perform (connects f d) s =
      let (r, b, cs) = connect (is_live s.live) f d (ok s.fresh) (λ _. ok tt) s.ble in
      (
        record { ble = b; live = b.client; fresh = suc s.fresh },
        closed_calls cs b ++ returned r ∷ [],
      )
  perform (refused f d x) s =
      let (r, b, cs) =
        connect (is_live s.live) f d (link_of x s.fresh) (λ _. subscription_of x) s.ble in
      (record { ble = b; live = s.live; fresh = suc s.fresh }, closed_calls cs b ++ returned r ∷ [])
  perform disconnects s =
      let (b, cs) = disconnect s.ble in (record s { ble = b; live = none }, closed_calls cs b)
  perform drops s = (record s { live = none }, handle_disconnect s.ble)
  perform (arrives p) s = (s, handle_notify p s.ble)

  -- Drops and payloads are those of a link, and a connection that opens can be subscribed to.
  abbrev pub IsPossible : Op F D → Option (F × D) → Type 0
  IsPossible (connects f d) up = Unit
  IsPossible (refused f d (no_link e)) up = Unit
  IsPossible (refused f d (no_subscription e)) up = is_some up ≡ true
  IsPossible disconnects up = Unit
  IsPossible drops up = is_some up ≡ true
  IsPossible (arrives p) up = is_some up ≡ true

  abbrev pub IsShown : Linked F D → Option (F × D) → Type 0
  IsShown s (some (f, d)) =
      (c : ℕ) × (s.ble.client ≡ some c)
      × (s.live ≡ some c)
      × (s.ble.on_frame ≡ some f)
      × (s.ble.on_disconnect ≡ some d)
  IsShown s none = s.live ≡ none

  pub connected : Linked F D → Bool
  connected s = is_connected (is_live s.live) s.ble

  pub IsShown-connected :
      (s : Linked F D) (up : Option (F × D)) → IsShown s up → connected s ≡ is_some up
  unfolding connected
  IsShown-connected s (some (f, d)) (c, k, l, _, _) = rw (k, l) (self c)
  IsShown-connected s none h = rw h (no_live s.ble.client)

  -- Closing signals nothing behind a disconnect, which has cleared the callbacks.
  closed_silent : (cs : List ℕ) → closed_calls cs (new_ble {F = F} {D = D}) ≡ []
  unfolding handle_disconnect
  closed_silent [] = refl
  closed_silent (c ∷ cs) = closed_silent cs

  pub follows :
      (op : Op F D) (s : Linked F D) (up : Option (F × D))
      → IsShown s up
      → IsPossible op up
      → IsShown (perform op s).0 (specified op up).0 × ((perform op s).1 ≡ (specified op up).1)
  unfolding perform specified connect disconnect handle_disconnect handle_notify established
      subscribed keep_callbacks connected
  follows (connects f d) s (some (g, e)) (c, k, l, m, n) _ =
      rw
        (connect_again (is_live s.live) f d s.ble (ok s.fresh) (λ _. ok tt)
          (IsShown-connected s (some (g, e)) (c, k, l, m, n)))
        ((c, k, k, m, n), refl)
  follows (connects f d) s none h _ =
      rw
        (connect_new (is_live s.live) f d s.ble (ok s.fresh) (λ _. ok tt)
          (IsShown-connected s none h))
        ((s.fresh, refl, refl, refl, refl), refl)
  follows (refused f d x) s (some (g, e)) (c, k, l, m, n) _ =
      rw
        (connect_again (is_live s.live) f d s.ble (link_of x s.fresh) (λ _. subscription_of x)
          (IsShown-connected s (some (g, e)) (c, k, l, m, n)))
        ((c, k, l, m, n), refl)
  follows (refused f d (no_link x)) s none h _ =
      rw (connect_new (is_live s.live) f d s.ble (err x) (λ _. ok tt) (IsShown-connected s none h))
        (h, refl)
  follows (refused f d (no_subscription x)) s none h n = cc
  follows disconnects s up h _ = (refl, closed_silent (disconnect s.ble).1)
  follows drops s (some (f, d)) (c, k, l, g, e) _ = (refl, rw e refl)
  follows drops s none h n = cc
  follows (arrives p) s (some (f, d)) (c, k, l, g, e) _ = ((c, k, l, g, e), rw g refl)
  follows (arrives p) s none h n = cc

  -- The Bluetooth transport as a transport.
  abbrev pub ble_transport : Transport F D (Linked F D)
  ble_transport = record {
    perform = perform;
    connected = connected;
    Can = IsPossible;
    Shows = IsShown;
    shows_connected = IsShown-connected;
    follows = follows;
  }

  -- The Bluetooth transport, from its creation on, over any sequence of connects with any callbacks,
  -- whose connections open with a subscription or cannot be opened, disconnects, drops of the link and
  -- payloads that come while there is a link: it makes the callbacks that the interface specifies, those
  -- of the client that the link was opened for, in their order, each connect returns or raises a
  -- connection error as specified, and it is connected at the end exactly if the link is up. A
  -- connection that opens and cannot be subscribed to is not among them.
  pub ble_transport-Shows :
      (os : List (Op F D))
      → CanAll ble_transport os none
      → IsShown (perform_all ble_transport os unlinked).0 (specified_all os none).0
        × ((perform_all ble_transport os unlinked).1 ≡ (specified_all {F = F} {D = D} os none).1)
        × (connected (perform_all ble_transport os unlinked).0
            ≡ is_some (specified_all {F = F} {D = D} os none).0)
  ble_transport-Shows os c =
      let (h, e) = perform_all-Shows ble_transport os unlinked none refl c in
      (h, e, IsShown-connected _ _ h)
