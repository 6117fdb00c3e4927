-- ===== src/Charger/History/Complete.antt =====
-- `_collect_bulk` over records that come without a pause.
use Prim.Native.Nat.{min}
use mathlib.Core.List.{append-nil}
use spinev_ble.Base.{
  ℕ, ◌-◌, ◌≤◌, ◌<◌, ◌≡◌, refl, sym, ap, ◌∙◌, true, false, List, [], ◌∷◌, ◌++◌, ltb, ◌==◌, All,
  arith,
}
use spinev_ble.Models.{Bytes}
use spinev_ble.Protocol.History.{is_history_record}
use spinev_ble.Charger.State.{Client, on_notify}
use spinev_ble.Charger.Exchange.{Event, notify}
use spinev_ble.Charger.History.{callback, clear_event, collect, collect_bulk}
use spinev_ble.Charger.History.Collect.{records_in, duration, one_more_bulk}

-- A history record behind a pause that a wait of the loop outlasts.
abbrev pub IsPrompt : ℕ × Event → Type 0
IsPrompt (gap, e) = (gap ≤ 400) × ((p : Bytes) × (e ≡ notify p) × (is_history_record p ≡ true))

record_sets_event :
    (p : Bytes) (c : Client) → is_history_record p ≡ true → (on_notify p c).bulk_event ≡ true
unfolding on_notify
record_sets_event p c h = rw h refl

-- One round on an arrival in time that sets the event, with more time left.
another_wait :
    (gap : ℕ) (e : Event) (rest : List (ℕ × Event)) (remaining idle : ℕ) (c : Client)
    → gap ≤ idle
    → gap < remaining
    → (callback e c).bulk_event ≡ true
    → collect ((gap, e) ∷ rest) remaining idle c
      ≡ collect rest (remaining - gap) (min 400 (remaining - gap)) (clear_event (callback e c))
unfolding collect
another_wait gap e rest remaining idle c h k set =
    rw (not_late gap idle h, set, more_left gap remaining k) refl
  where
    not_late : (gap idle : ℕ) → gap ≤ idle → ltb idle gap ≡ false
    not_late gap idle h = ground arith

    more_left : (gap remaining : ℕ) → gap < remaining → (remaining - gap == 0) ≡ false
    more_left gap remaining k = ground arith

collect_complete :
    (arrivals : List (ℕ × Event)) (remaining : ℕ) (c : Client)
    → All IsPrompt arrivals
    → duration arrivals < remaining
    → (collect arrivals remaining (min 400 remaining) c).bulk ≡ c.bulk ++ records_in arrivals
unfolding collect
collect_complete [] remaining c prompt short = sym (append-nil c.bulk)
collect_complete ((gap, e) ∷ rest) remaining c ((quick, (p, is, record_p)), prompt) short =
    let run =
      collect rest (remaining - gap) (min 400 (remaining - gap)) (clear_event (callback e c)) in
    ap (λ d. d.bulk)
      (another_wait gap e rest remaining (min 400 remaining) c (omega arith) (omega arith)
        (ap (λ x. (callback x c).bulk_event) is ∙ record_sets_event p c record_p))
    ∙ one_more_bulk gap e rest c run.bulk
        (collect_complete rest (remaining - gap) (clear_event (callback e c)) prompt (omega arith))

-- Records that come in time are all collected.
pub collect_bulk_complete :
    (timeout : ℕ) (arrivals : List (ℕ × Event)) (c : Client)
    → All IsPrompt arrivals
    → duration arrivals < timeout
    → (collect_bulk timeout arrivals c).bulk ≡ c.bulk ++ records_in arrivals
unfolding collect_bulk
collect_bulk_complete timeout arrivals c prompt short =
    rw (not_none timeout (omega arith))
      (collect_complete arrivals timeout (clear_event c) prompt short)
  where
    not_none : (timeout : ℕ) → 0 < timeout → (timeout == 0) ≡ false
    not_none timeout h = ground arith
