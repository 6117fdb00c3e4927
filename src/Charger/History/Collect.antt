-- ===== src/Charger/History/Collect.antt =====
-- `_collect_bulk`: the state of the client behind it, and what is in its buffer.
use Prim.Native.Nat.{min}
use mathlib.Core.List.{append-nil, append_assoc}
use spinev_ble.Base.{
  ℕ, ◌+◌, ◌-◌, ◌≤◌, All, ◌≡◌, refl, sym, ap, ◌∙◌, Bool, true, false, Option, none, some, List, [],
  ◌∷◌, ◌++◌, ltb, ◌==◌, if◌then◌else◌, arith, get_or,
}
use spinev_ble.Base.Dict.{lookup}
use spinev_ble.Models.{Bytes}
use spinev_ble.Protocol.History.{is_history_record}
use spinev_ble.Charger.State.{Client, answer, on_notify, on_disconnect}
use spinev_ble.Charger.State.Callbacks.{on_notify_idle, on_notify_keeps, on_disconnect_idle}
use spinev_ble.Charger.Exchange.{Event, notify, drop, send_done, expire, wake}
use spinev_ble.Charger.Exchange.Sound.{IsIdle}
use spinev_ble.Charger.History.{callback, clear_event, collect, collect_bulk}

callback-IsIdle : (e : Event) (c : Client) → IsIdle c → IsIdle (callback e c)
callback-IsIdle (notify p) c (w, s) = ((on_notify_idle p c w).0, rw ((on_notify_keeps p c).0) s)
callback-IsIdle drop c (w, s) = rw (on_disconnect_idle c w s) (refl, refl)
callback-IsIdle (send_done r) c i = i
callback-IsIdle expire c i = i
callback-IsIdle wake c i = i

if-IsIdle : (b : Bool) (c d : Client) → IsIdle c → IsIdle d → IsIdle (if b then c else d)
if-IsIdle true c d i j = i
if-IsIdle false c d i j = j

collect-IsIdle :
    (arrivals : List (ℕ × Event)) (remaining idle : ℕ) (c : Client)
    → IsIdle c
    → IsIdle (collect arrivals remaining idle c)
unfolding collect
collect-IsIdle [] remaining idle c i = i
collect-IsIdle ((gap, e) ∷ rest) remaining idle c i =
    let j = callback-IsIdle e c i in
    if-IsIdle (ltb idle gap) _ _ i (
      if-IsIdle (callback e c).bulk_event _ _
        (if-IsIdle (remaining - gap == 0) _ _ j
          (collect-IsIdle rest _ _ (clear_event (callback e c)) j))
        (collect-IsIdle rest _ _ (callback e c) j))

pub collect_bulk-IsIdle :
    (timeout : ℕ) (arrivals : List (ℕ × Event)) (c : Client)
    → IsIdle c
    → IsIdle (collect_bulk timeout arrivals c)
unfolding collect_bulk
collect_bulk-IsIdle timeout arrivals c i =
    if-IsIdle (timeout == 0) _ _ i (collect-IsIdle arrivals _ _ (clear_event c) i)

-- The history records among the events, in their order.
abbrev pub records_in : List (ℕ × Event) → List Bytes
records_in [] = []
records_in ((gap, notify p) ∷ rest) =
    if is_history_record p then p ∷ records_in rest else records_in rest
records_in ((gap, drop) ∷ rest) = records_in rest
records_in ((gap, send_done r) ∷ rest) = records_in rest
records_in ((gap, expire) ∷ rest) = records_in rest
records_in ((gap, wake) ∷ rest) = records_in rest

-- The milliseconds that the arrivals take.
abbrev pub duration : List (ℕ × Event) → ℕ
duration [] = 0
duration ((gap, e) ∷ rest) = gap + duration rest

-- The client has, beside what it had, the history records of a first part of the arrivals, which
-- takes no longer than a limit and has no pause of more than 400 milliseconds.
abbrev pub HasCollected : ℕ → List (ℕ × Event) → Client → Client → Type 0
HasCollected limit arrivals c d =
    (seen : List (ℕ × Event)) × (unseen : List (ℕ × Event)) × (arrivals ≡ seen ++ unseen)
    × (d.bulk ≡ c.bulk ++ records_in seen)
    × (duration seen ≤ limit)
    × All (λ a. a.0 ≤ 400) seen

on_disconnect_bulk : (c : Client) → (on_disconnect c).bulk ≡ c.bulk
unfolding on_disconnect
on_disconnect_bulk c = ground arith

answer_bulk : (p : Bytes) (o : Option (ℕ × ℕ)) (c : Client) → (answer p o c).bulk ≡ c.bulk
unfolding answer
answer_bulk p none c = refl
answer_bulk p (some (i, flag)) c = ground arith

callback_bulk :
    (gap : ℕ) (e : Event) (c : Client) → (callback e c).bulk ≡ c.bulk ++ records_in ((gap, e) ∷ [])
unfolding on_notify
callback_bulk gap (notify p) c =
    ground (arith, append-nil c.bulk, answer_bulk p (lookup (get_or p 2 0) c.waiters) c)
callback_bulk gap drop c = on_disconnect_bulk c ∙ sym (append-nil c.bulk)
callback_bulk gap (send_done r) c = sym (append-nil c.bulk)
callback_bulk gap expire c = sym (append-nil c.bulk)
callback_bulk gap wake c = sym (append-nil c.bulk)

records_first :
    (gap : ℕ) (e : Event) (seen : List (ℕ × Event))
    → records_in ((gap, e) ∷ []) ++ records_in seen ≡ records_in ((gap, e) ∷ seen)
records_first gap (notify p) seen = ground arith
records_first gap drop seen = refl
records_first gap (send_done r) seen = refl
records_first gap expire seen = refl
records_first gap wake seen = refl

nothing_more :
    (limit : ℕ) (arrivals : List (ℕ × Event)) (c : Client) → HasCollected limit arrivals c c
nothing_more limit arrivals c = ([], arrivals, refl, sym (append-nil c.bulk), omega arith, tt)

pub one_more_bulk :
    (gap : ℕ) (e : Event) (seen : List (ℕ × Event)) (c : Client) (bulk : List Bytes)
    → bulk ≡ (callback e c).bulk ++ records_in seen
    → bulk ≡ c.bulk ++ records_in ((gap, e) ∷ seen)
one_more_bulk gap e seen c bulk has =
    has
    ∙ ap (λ (l : List Bytes). l ++ records_in seen) (callback_bulk gap e c)
    ∙ append_assoc c.bulk (records_in ((gap, e) ∷ [])) (records_in seen)
    ∙ ap (λ (l : List Bytes). c.bulk ++ l) (records_first gap e seen)

one_more :
    (limit gap : ℕ) (e : Event) (rest : List (ℕ × Event)) (c d : Client)
    → gap ≤ limit
    → gap ≤ 400
    → HasCollected (limit - gap) rest (callback e c) d
    → HasCollected limit ((gap, e) ∷ rest) c d
one_more limit gap e rest c d fits quick (seen, unseen, splits, has, within, prompt) = (
  (gap, e) ∷ seen,
  unseen,
  ap (λ (l : List (ℕ × Event)). (gap, e) ∷ l) splits,
  one_more_bulk gap e seen c d.bulk has,
  omega arith,
  (quick, prompt),
)

if_HasCollected :
    (b : Bool) (limit : ℕ) (arrivals : List (ℕ × Event)) (c d e : Client)
    → (b ≡ true → HasCollected limit arrivals c d)
    → (b ≡ false → HasCollected limit arrivals c e)
    → HasCollected limit arrivals c (if b then d else e)
if_HasCollected true limit arrivals c d e h k = h refl
if_HasCollected false limit arrivals c d e h k = k refl

in_time : (idle gap : ℕ) → ltb idle gap ≡ false → gap ≤ idle
in_time idle gap h = ground arith

collect-HasCollected :
    (arrivals : List (ℕ × Event)) (remaining idle : ℕ) (c : Client)
    → idle ≤ remaining
    → idle ≤ 400
    → HasCollected remaining arrivals c (collect arrivals remaining idle c)
unfolding collect
collect-HasCollected [] remaining idle c i j = nothing_more remaining [] c
collect-HasCollected ((gap, e) ∷ rest) remaining idle c i j =
    let c' = callback e c in
    let left = remaining - gap in
    let next = collect rest left (min 400 left) (clear_event c') in
    let same_wait = collect rest left (idle - gap) c' in
    if_HasCollected (ltb idle gap) remaining _ c c _ (λ _. nothing_more remaining _ c)
      (λ h.
        let t = in_time idle gap h in
        let first = one_more remaining gap e rest c in
        if_HasCollected c'.bulk_event remaining _ c (if left == 0 then clear_event c' else next)
          same_wait
          (λ _.
            if_HasCollected (left == 0) remaining _ c (clear_event c') next
              (λ _.
                first (clear_event c') (omega (arith, t, i)) (omega (arith, t, j))
                  (nothing_more left rest c'))
              (λ _. first next (omega (arith, t, i)) (omega (arith, t, j)) (
                collect-HasCollected rest left (min 400 left) (clear_event c') (omega arith)
                  (omega arith))))
          (λ _.
            first same_wait (omega (arith, t, i)) (omega (arith, t, j)) (
              collect-HasCollected rest left (idle - gap) c' (omega (arith, i))
                (omega (arith, j)))))

-- The collection of a bulk read adds to the buffer exactly the history records among a first part
-- of what arrives, in the order of their arrival: none of these is lost or doubled, and nothing
-- else is taken for a record. That part takes no longer than the timeout, and has no pause of more
-- than 400 milliseconds in it.
pub collect_bulk-HasCollected :
    (timeout : ℕ) (arrivals : List (ℕ × Event)) (c : Client)
    → HasCollected timeout arrivals c (collect_bulk timeout arrivals c)
unfolding collect_bulk
collect_bulk-HasCollected timeout arrivals c =
    if_HasCollected (timeout == 0) timeout arrivals c c
      (collect arrivals timeout (min 400 timeout) (clear_event c))
      (λ _. nothing_more timeout arrivals c)
      (λ _.
        collect-HasCollected arrivals timeout (min 400 timeout) (clear_event c) (omega arith)
          (omega arith))
