-- ===== src/Transport/Contract.antt =====
-- `SpinEvTransport` of src/spinev_ble/transports/base.py: the interface of a transport towards the
-- client that gave it its two callbacks. The state of the specification is the pair of callbacks that a
-- link is up for, if one is up, and each event leads to callbacks and to outcomes of `async_connect`.
use spinev_ble.Base.{◌≡◌, refl, Bool, Option, none, some, is_some, List, [], ◌∷◌, ◌++◌}
use spinev_ble.Errors.{Exception, Result, ok, raise, connection_error}
use spinev_ble.Models.{Bytes}
use spinev_ble.Charger.Exchange.{Event, notify, drop}

-- A callback that is called, or what `async_connect` returns.
pub data Call (F D : Type 0) : Type 0 where
  frame_call : F → Bytes → Call F D
  disconnect_call : D → Call F D
  returned : Result (Unit {0}) → Call F D

module _ {F D : Type 0} where
  abbrev pub call_frame : Option F → Bytes → List (Call F D)
  call_frame none payload = []
  call_frame (some f) payload = frame_call f payload ∷ []

  abbrev pub call_disconnect : Option D → List (Call F D)
  call_disconnect none = []
  call_disconnect (some d) = disconnect_call d ∷ []

  -- The callbacks are the client's, so that a call of one is an event of the client.
  abbrev pub delivered : List (Call F D) → List Event
  delivered [] = []
  delivered (frame_call f p ∷ calls) = notify p ∷ delivered calls
  delivered (disconnect_call d ∷ calls) = drop ∷ delivered calls
  delivered (returned r ∷ calls) = delivered calls

-- What fails when a link is opened.
pub data Failure : Type 0 where
  no_link no_subscription : Exception → Failure

-- The client connects with callbacks, in vain or not, and disconnects, the link drops on its own, and a
-- payload arrives.
pub data Op (F D : Type 0) : Type 0 where
  connects : F → D → Op F D
  refused : F → D → Failure → Op F D
  disconnects drops : Op F D
  arrives : Bytes → Op F D

module _ {F D : Type 0} where
  -- What base.py promises: payloads go to the `on_frame` of the client that a link is up for, its
  -- `on_disconnect` is called for a drop and not for a disconnect that was asked for, connecting a
  -- transport that is connected does nothing, with any callbacks, and a link that cannot be opened is a
  -- connection error.
  unfoldable pub specified : Op F D → Option (F × D) → Option (F × D) × List (Call F D)
  specified (connects f d) none = (some (f, d), returned (ok tt) ∷ [])
  specified (connects f d) (some b) = (some b, returned (ok tt) ∷ [])
  specified (refused f d x) none = (none, returned (raise connection_error) ∷ [])
  specified (refused f d x) (some b) = (some b, returned (ok tt) ∷ [])
  specified disconnects up = (none, [])
  specified drops (some (f, d)) = (none, disconnect_call d ∷ [])
  specified drops none = (none, [])
  specified (arrives p) (some (f, d)) = (some (f, d), frame_call f p ∷ [])
  specified (arrives p) none = (none, [])

  unfoldable pub specified_all : List (Op F D) → Option (F × D) → Option (F × D) × List (Call F D)
  specified_all [] up = (up, [])
  specified_all (o ∷ os) up =
      let (up1, calls) = specified o up in
      let (up2, more) = specified_all os up1 in (up2, calls ++ more)

-- A transport with states `S`. `Can` is what its environment may do, and `Shows` says that a state shows
-- a link that is up for a client, or down.
pub record Transport (F D S : Type 0) : Type 1 where
  pub perform : Op F D → S → S × List (Call F D)
  pub connected : S → Bool
  pub Can : Op F D → Option (F × D) → Type 0
  pub Shows : S → Option (F × D) → Type 0
  pub shows_connected : (s : S) (up : Option (F × D)) → Shows s up → connected s ≡ is_some up
  pub follows :
      (o : Op F D) (s : S) (up : Option (F × D))
      → Shows s up
      → Can o up
      → Shows (perform o s).0 (specified o up).0 × ((perform o s).1 ≡ (specified o up).1)

module _ {F D S : Type 0} (t : Transport F D S) where
  unfoldable pub perform_all : List (Op F D) → S → S × List (Call F D)
  perform_all [] s = (s, [])
  perform_all (o ∷ os) s =
      let (s1, calls) = t.perform o s in let (s2, more) = perform_all os s1 in (s2, calls ++ more)

  -- Each operation can happen where it stands.
  abbrev pub CanAll : List (Op F D) → Option (F × D) → Type 0
  CanAll [] up = Unit
  CanAll (o ∷ os) up = t.Can o up × CanAll os (specified o up).0

  -- Any transport that follows the interface step by step does so over every sequence of operations that
  -- can happen: it shows the specified link at the end and makes the specified calls in the specified
  -- order.
  pub perform_all-Shows :
      (os : List (Op F D)) (s : S) (up : Option (F × D))
      → t.Shows s up
      → CanAll os up
      → t.Shows (perform_all os s).0 (specified_all os up).0
        × ((perform_all os s).1 ≡ (specified_all os up).1)
  unfolding perform_all specified_all
  perform_all-Shows [] s up h c = (h, refl)
  perform_all-Shows (o ∷ os) s up h (c, cs) =
      let (h1, e) = t.follows o s up h c in
      let (h2, e2) = perform_all-Shows os (t.perform o s).0 (specified o up).0 h1 cs in
      (h2, rw (e, e2) refl)
