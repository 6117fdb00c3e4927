-- ===== src/Charger/History/Sessions.antt =====
-- The loop of `async_get_history` over the collected records, against a definition of what it
-- should compute.
use mathlib.Core.List.{append-nil, append_assoc}
use spinev_ble.Base.{
  ◌≡◌, refl, sym, ap, ◌∙◌, inl, inr, Bool, true, not, ◌&&◌, ◌||◌, Option, none, some, List, [], ◌∷◌,
  ◌++◌, arith, Bool-cases,
}
use spinev_ble.Errors.{Result, ok, err}
use spinev_ble.Models.{Bytes, Datetime, ChargingSession}
use spinev_ble.Protocol.History.{decode_session_record}
use spinev_ble.Protocol.History.Records.{decode_session_record_total}
use spinev_ble.Protocol.Alarms.Index.{keep}
use spinev_ble.Charger.History.{
  same_datetime, same_session, seen_before, add_session, sessions_from,
}

-- What a record decodes to.
abbrev session_of : Result (Option ChargingSession) → List ChargingSession
session_of (ok (some s)) = s ∷ []
session_of (ok none) = []
session_of (err e) = []

unfoldable pub decoded : List Bytes → List ChargingSession
decoded [] = []
decoded (raw ∷ raws) = session_of (decode_session_record raw) ++ decoded raws

-- The first of each group of equal sessions.
unfoldable pub first_of_each : List ChargingSession → List ChargingSession
first_of_each [] = []
first_of_each (s ∷ ss) = s ∷ keep (λ t. not (same_session t s)) (first_of_each ss)

same_datetime_left :
    (a b c : Datetime) → same_datetime a b ≡ true → same_datetime a c ≡ same_datetime b c
same_datetime_left a b c h = ground arith

same_session_left :
    (a b c : ChargingSession) → same_session a b ≡ true → same_session a c ≡ same_session b c
same_session_left a b c h =
    ground (arith, same_datetime_left a.start b.start c.start, same_datetime_left a.end b.end c.end)

seen_left :
    (a b : ChargingSession) (ts : List ChargingSession)
    → same_session a b ≡ true
    → seen_before a ts ≡ seen_before b ts
seen_left a b [] h = refl
seen_left a b (t ∷ ts) h = ground (arith, same_session_left a b t h, seen_left a b ts h)

seen_snoc :
    (a x : ChargingSession) (ts : List ChargingSession)
    → seen_before a (ts ++ x ∷ []) ≡ (seen_before a ts || same_session a x)
seen_snoc a x [] = ground arith
seen_snoc a x (t ∷ ts) = ground (arith, seen_snoc a x ts)

keep-keep_as {ℓ} :
    {A : Type ℓ} (p q r : A → Bool) (xs : List A)
    → ((x : A) → (p x && q x) ≡ r x)
    → keep q (keep p xs) ≡ keep r xs
keep-keep_as p q r [] h = refl
keep-keep_as p q r (x ∷ xs) h = ground (arith, h x, keep-keep_as p q r xs h)

abbrev unseen : List ChargingSession → ChargingSession → Bool
unseen acc t = not (seen_before t acc)

-- An entry that was seen leaves the rest as it is without it.
drop_seen :
    (acc : List ChargingSession) (x t : ChargingSession)
    → seen_before x acc ≡ true
    → (not (same_session t x) && unseen acc t) ≡ unseen acc t
drop_seen acc x t h = elim (Bool-cases (same_session t x)) [
  | inl e ↦ ground (arith, seen_left t x acc e)
  | inr e ↦ ground arith
]

drop_new :
    (acc : List ChargingSession) (x t : ChargingSession)
    → (not (same_session t x) && unseen acc t) ≡ unseen (acc ++ x ∷ []) t
drop_new acc x t = ground (arith, seen_snoc t x acc)

-- The loop over the sessions that the records decode to.
unfoldable add_all : List ChargingSession → List ChargingSession → List ChargingSession
add_all acc [] = acc
add_all acc (s ∷ ss) = add_all (add_session acc (some s)) ss

add_all_lem :
    (acc ss : List ChargingSession) → add_all acc ss ≡ acc ++ keep (unseen acc) (first_of_each ss)
unfolding add_all first_of_each add_session
add_all_lem acc [] = sym (append-nil acc)
add_all_lem acc (x ∷ ss) = elim (Bool-cases (seen_before x acc)) [
  | inl e ↦ ground (
    arith,
    add_all_lem acc ss,
    keep-keep_as (λ t. not (same_session t x)) (unseen acc) (unseen acc) (first_of_each ss)
        (λ t. drop_seen acc x t e),
  )
  | inr e ↦ ground (
    arith,
    add_all_lem (acc ++ x ∷ []) ss,
    append_assoc acc (x ∷ []) (keep (unseen (acc ++ x ∷ [])) (first_of_each ss)),
    keep-keep_as (λ t. not (same_session t x)) (unseen acc) (unseen (acc ++ x ∷ []))
        (first_of_each ss) (drop_new acc x),
  )
]

sessions_add_all :
    (acc : List ChargingSession) (raws : List Bytes)
    → sessions_from acc raws ≡ ok (add_all acc (decoded raws))
unfolding sessions_from decoded add_all add_session
sessions_add_all acc [] = refl
sessions_add_all acc (raw ∷ raws) = elim (decode_session_record_total raw) [
  | inl e ↦ ground (arith, e, sessions_add_all acc raws)
  | inr (s, e, _, _, _, _) ↦ ground (arith, e, sessions_add_all (add_session acc (some s)) raws)
]

keep_all : (ss : List ChargingSession) → keep (unseen []) ss ≡ ss
keep_all [] = refl
keep_all (s ∷ ss) = ap (λ (l : List ChargingSession). s ∷ l) (keep_all ss)

-- From any collected payloads, well formed or not, the history is computed without an error: the
-- sessions that the payloads decode to, in their order, the first of each group with the same
-- start, end and energy.
pub sessions_from-first_of_each :
    (raws : List Bytes) → sessions_from [] raws ≡ ok (first_of_each (decoded raws))
sessions_from-first_of_each raws =
    sessions_add_all [] raws
    ∙ ap ok (add_all_lem [] (decoded raws) ∙ keep_all (first_of_each (decoded raws)))
