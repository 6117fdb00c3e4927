-- ===== src/Charger/Connect/Slot.antt =====
-- An `async with` block of the client over Bluetooth, where the charger has one slot for a client.
use spinev_ble.Base.{ℕ, ◌≡◌, refl, Bool, false, none, some, List, [], ◌∷◌, ◌++◌}
use mathlib.Core.List.{append-nil}
use spinev_ble.Errors.{Exception, Result, ok, err, raise, connection_error}
use spinev_ble.Charger.Connect.{with_charger}
use spinev_ble.Transport.Ble.{
  Ble, new_ble, is_connected, connect, disconnect, established, subscribed, keep_callbacks,
}

-- The clients that are opened, by the outcome of opening the connection.
abbrev pub opened : Result ℕ → List ℕ
opened (ok c) = c ∷ []
opened (err e) = []

-- The transport with the clients of bleak that were closed.
pub record Slot (F D : Type 0) : Type 0 where
  pub ble : Ble F D
  pub closed : List ℕ

module _ {F D : Type 0} (up : ℕ → Bool) (f : F) (d : D) where
  abbrev pub slot_connected : Slot F D → Bool
  slot_connected s = is_connected up s.ble

  abbrev pub slot_connect :
      Result ℕ → (ℕ → Result (Unit {0})) → Slot F D → Result (Unit {0}) × Slot F D
  slot_connect link notified s =
      let (r, b, closed) = connect up f d link notified s.ble in
      (r, record { ble = b; closed = s.closed ++ closed })

  abbrev pub slot_disconnect : Slot F D → Result (Unit {0}) × Slot F D
  slot_disconnect s =
      let (b, closed) = disconnect s.ble in (ok tt, record { ble = b; closed = s.closed ++ closed })

  -- The block, whose code leaves the transport's state alone.
  unfoldable pub block_over_ble :
      {A : Type 0}
      → Result ℕ
      → (ℕ → Result (Unit {0}))
      → (Ble F D → Result A)
      → Slot F D
      → Result A × Slot F D
  block_over_ble link notified body =
      with_charger slot_connected (slot_connect link notified) slot_disconnect
        (λ s. (body s.ble, s))

  module _ {A : Type 0} (notified : ℕ → Result (Unit {0})) (body : Ble F D → Result A)
      (s : Slot F D) (free : s.ble.client ≡ none) where
    pub block_subscribed :
        (c : ℕ)
        → notified c ≡ ok tt
        → block_over_ble (ok c) notified body s ≡ (
          body (record { client = some c; on_frame = some f; on_disconnect = some d }),
          record { ble = new_ble; closed = s.closed ++ c ∷ [] },
        )
    unfolding block_over_ble with_charger connect disconnect established subscribed keep_callbacks
    block_subscribed c n = rw (free, n, append-nil s.closed) refl

    pub block_unsubscribed :
        (c : ℕ) (e : Exception)
        → notified c ≡ err e
        → block_over_ble (ok c) notified body s ≡ (
          raise connection_error,
          record { ble = keep_callbacks f d s.ble; closed = s.closed ++ c ∷ [] },
        )
    unfolding block_over_ble with_charger connect disconnect established subscribed keep_callbacks
    block_unsubscribed c e n = rw (free, n) refl

    block_unopened :
        (e : Exception)
        → block_over_ble (err e) notified body s ≡ (
          raise connection_error,
          record { ble = keep_callbacks f d s.ble; closed = s.closed ++ [] },
        )
    unfolding block_over_ble with_charger connect established subscribed keep_callbacks
    block_unopened e = rw free refl

    abbrev if_subscribed : ℕ → Result (Unit {0}) → Result A
    if_subscribed c (ok _) =
        body (record { client = some c; on_frame = some f; on_disconnect = some d })
    if_subscribed c (err e) = raise connection_error

    -- The result of the block, by the outcomes of opening the connection and subscribing.
    abbrev pub block_result : Result ℕ → Result A
    block_result (ok c) = if_subscribed c (notified c)
    block_result (err e) = raise connection_error

    by_outcome :
        (c : ℕ) (r : Result (Unit {0}))
        → notified c ≡ r
        → let (q, t) = block_over_ble (ok c) notified body s in
          (q ≡ if_subscribed c r)
          × (t.closed ≡ s.closed ++ c ∷ [])
          × (is_connected up t.ble ≡ false)
    unfolding keep_callbacks
    by_outcome c (ok _) n = rw (block_subscribed c n) (refl, refl, refl)
    by_outcome c (err e) n = rw (block_unsubscribed c e n, free) (refl, refl, refl)

    -- An `async with` block over Bluetooth, whose code does not itself connect or disconnect, gives
    -- the charger's one slot back. On a transport that has no client, the client that the connection
    -- opens with, if it opens, and no other, is closed exactly once by the end, and the transport is
    -- not connected, whether the connection or the subscription fails, the block raises or it
    -- returns. The outcome is a connection error if one of the two fails, and else that of the block,
    -- run on the connected transport.
    pub block_over_ble-closes :
        (link : Result ℕ)
        → let (q, t) = block_over_ble link notified body s in
          (q ≡ block_result link)
          × (t.closed ≡ s.closed ++ opened link)
          × (is_connected up t.ble ≡ false)
    unfolding keep_callbacks
    block_over_ble-closes (ok c) = by_outcome c (notified c) refl
    block_over_ble-closes (err e) = rw (block_unopened e, free) (refl, refl, refl)
