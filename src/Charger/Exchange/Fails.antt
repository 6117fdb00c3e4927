-- ===== src/Charger/Exchange/Fails.antt =====
-- The courses of a request that fails: the link drops, the send fails, or the deadline passes.
use spinev_ble.Base.{ℕ, ◌≡◌, refl, true, false, List, [], ◌∷◌, ◌++◌, get_or, All}
use spinev_ble.Errors.{
  SpinEvError, Exception, spinev, builtin_value_error, struct_error, builtin_timeout_error,
  other_exception, Result, ok, err, raise, connection_error, timeout_error,
}
use spinev_ble.Models.{Bytes}
use spinev_ble.Charger.State.{Client}
use spinev_ble.Charger.State.Callbacks.{matches}
use spinev_ble.Charger.Exchange.{
  running, sent, Event, drop, send_done, expire, wake, delivering, replying, package_error,
  exchange,
}
use spinev_ble.Charger.Exchange.Sound.{IsIdle}
use spinev_ble.Charger.Exchange.Outcomes.{noise, failed_send, dropped_early, dropped_late, silent}
use spinev_ble.Charger.Exchange.Answers.{decided, after_noise, after_send}

module _ (frame : Bytes) (register : ℕ) (c : Client) (idle : IsIdle c) where
  -- A link that drops fails the request of an idle client with a connection error as soon as the
  -- coroutine is resumed, before the send has ended and after it, if no payload has matched yet.
  exchange_dropped :
      (ps qs : List Bytes) (rest : List Event)
      → All (λ q. matches register (get_or frame 3 0) q ≡ false) ps
      → All (λ q. matches register (get_or frame 3 0) q ≡ false) qs
      → ((exchange true ((noise ps ++ drop ∷ wake ∷ []) ++ rest) frame register c).0
          ≡ raise connection_error)
        × ((exchange true
              ((noise ps ++ ((send_done (ok tt) ∷ wake ∷ []) ++ (noise qs ++ drop ∷ wake ∷ [])))
                ++ rest)
              frame
              register
              c).0
            ≡ raise connection_error)
  exchange_dropped ps qs rest h k = (
    decided frame register c idle _ _ rest (
        after_noise frame register c idle _ ps _ h
          (λ run. dropped_early register _ (get_or frame 3 0) run)),
    decided frame register c idle _ _ rest (
        after_noise frame register c idle _ ps _ h (
          after_send frame register c idle _ qs _ k
            (λ run. dropped_late register _ (get_or frame 3 0) run))),
  )

  -- A send that fails ends the request of an idle client, if no payload has matched yet, with the
  -- package's error for the transport's exception: its own error, a timeout for `TimeoutError`, and a
  -- connection error for the rest.
  exchange_send_failed :
      (e : Exception) (ps : List Bytes) (rest : List Event)
      → All (λ q. matches register (get_or frame 3 0) q ≡ false) ps
      → (exchange true ((noise ps ++ send_done (err e) ∷ wake ∷ []) ++ rest) frame register c).0
        ≡ raise (package_error e)
  exchange_send_failed e ps rest h = decided frame register c idle _ _ rest (
      after_noise frame register c idle _ ps _ h
        (λ run. failed_send register _ (get_or frame 3 0) e run))

  -- When the deadline passes and no payload has matched, the request of an idle client ends with a
  -- timeout, whether or not the send has ended.
  exchange_silent :
      (ps qs : List Bytes) (rest : List Event)
      → All (λ q. matches register (get_or frame 3 0) q ≡ false) ps
      → All (λ q. matches register (get_or frame 3 0) q ≡ false) qs
      → ((exchange true ((noise ps ++ expire ∷ wake ∷ []) ++ rest) frame register c).0
          ≡ raise timeout_error)
        × ((exchange true
              ((noise ps ++ ((send_done (ok tt) ∷ wake ∷ []) ++ (noise qs ++ expire ∷ wake ∷ [])))
                ++ rest)
              frame
              register
              c).0
            ≡ raise timeout_error)
  exchange_silent ps qs rest h k = (
    decided frame register c idle _ _ rest (
        after_noise frame register c idle _ ps _ h
          (λ run. silent register _ (get_or frame 3 0) delivering running run refl)),
    decided frame register c idle _ _ rest (
        after_noise frame register c idle _ ps _ h (
          after_send frame register c idle _ qs _ k
            (λ run. silent register _ (get_or frame 3 0) replying (sent (ok tt)) run refl))),
  )

  -- A request of an idle client fails in one of three ways when no payload has matched yet. A link that
  -- drops is a connection error as soon as the coroutine is resumed, before the send has ended and after
  -- it. A send that fails with an error of the package is that error, one that fails with `TimeoutError`
  -- is a timeout, and one that fails with any other exception is a connection error. When the deadline
  -- passes it is a timeout, whether or not the send has ended. What happens later changes nothing.
  pub exchange_fails :
      (x : SpinEvError) (ps qs : List Bytes) (rest : List Event)
      → All (λ q. matches register (get_or frame 3 0) q ≡ false) ps
      → All (λ q. matches register (get_or frame 3 0) q ≡ false) qs
      → let outcome_of : List Event → Result Bytes =
          λ course. (exchange true (course ++ rest) frame register c).0 in
        let failing : Exception → Result Bytes =
          λ e. outcome_of (noise ps ++ send_done (err e) ∷ wake ∷ []) in
        let behind_send : List Event → List Event =
          λ course. noise ps ++ ((send_done (ok tt) ∷ wake ∷ []) ++ (noise qs ++ course)) in
        ((outcome_of (noise ps ++ drop ∷ wake ∷ []) ≡ raise connection_error)
          × (outcome_of (behind_send (drop ∷ wake ∷ [])) ≡ raise connection_error))
        × ((failing (spinev x) ≡ raise x)
            × (failing builtin_timeout_error ≡ raise timeout_error)
            × All
                (λ e. failing e ≡ raise connection_error)
                (builtin_value_error ∷ struct_error ∷ other_exception ∷ []))
        × ((outcome_of (noise ps ++ expire ∷ wake ∷ []) ≡ raise timeout_error)
            × (outcome_of (behind_send (expire ∷ wake ∷ [])) ≡ raise timeout_error))
  exchange_fails x ps qs rest h k = (
    exchange_dropped ps qs rest h k,
    (
      exchange_send_failed (spinev x) ps rest h,
      exchange_send_failed builtin_timeout_error ps rest h,
      (
        exchange_send_failed builtin_value_error ps rest h,
        (
          exchange_send_failed struct_error ps rest h,
          (exchange_send_failed other_exception ps rest h, tt),
        ),
      ),
    ),
    exchange_silent ps qs rest h k,
  )
