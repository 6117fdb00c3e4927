-- ===== src/Charger/Reads/Alarms.antt =====
-- `async_get_alarm_defs` over its two banks: what it returns and raises when a bank answers, and
-- when it does not.
use mathlib.Core.List.{append-nil}
use spinev_ble.Base.{
  ℕ, ◌≡◌, refl, sym, ap, ◌∙◌, ◌⊎◌, inl, inr, Bool, Bool-cases, true, false, ◌&&◌, ◌==◌,
  if◌then◌else◌, List, [], ◌∷◌, ◌++◌,
}
use spinev_ble.Errors.{
  Exception, Result, ok, err, raise, spinev, connection_error, timeout_error, protocol_error,
  password_error, command_rejected_error, busy_error, unsupported_error, type_error, value_error,
  builtin_value_error, struct_error, builtin_timeout_error, other_exception,
}
use spinev_ble.Models.{AlarmDef}
use spinev_ble.Protocol.Alarms.Table.{alarms}
use spinev_ble.Protocol.Alarms.Index.{bit_set, keep, decode_alarm_defs-keep}
use spinev_ble.Charger.Session.{World, Session, pure, is_timeout}
use spinev_ble.Charger.Session.Steps.{bind_ok, bind_err}
use spinev_ble.Charger.Reads.{read_alarm_word, decode_word, read_bank, read_banks, get_alarm_defs}

-- The rows of the table that a word of a bank reports.
abbrev pub reported : ℕ → ℕ → List AlarmDef
reported bank word = keep (λ a. (a.bank == bank) && bit_set word a.bit) alarms

&&-false : (b : Bool) → (b && false) ≡ false
&&-false true = refl
&&-false false = refl

module _ (w : World) where
  bank_ok :
      (bank word : ℕ) (s t : Session)
      → (bank ≡ 1) ⊎ (bank ≡ 2)
      → read_alarm_word w bank s ≡ (ok word, t)
      → read_bank w bank s ≡ (ok (reported bank word), t)
  unfolding read_bank decode_word
  bank_ok bank word s t b h =
      ap (decode_word bank) h ∙ ap (λ r. (r, t)) (decode_alarm_defs-keep word bank b)

  bank_silent :
      (s t : Session)
      → read_alarm_word w 2 s ≡ (raise timeout_error, t)
      → read_bank w 2 s ≡ (ok [], t)
  unfolding read_bank decode_word
  bank_silent s t h = ap (decode_word 2) h

  first_fails :
      (e : Exception) (s t : Session)
      → read_alarm_word w 1 s ≡ (err e, t)
      → read_bank w 1 s ≡ (err e, t)
  unfolding read_bank decode_word
  first_fails e s t h =
      ap (decode_word 1) h
      ∙ ap (λ b. if b then (ok [], t) else (err e, t)) (&&-false (is_timeout e))

  -- When both alarm words are read, the alarms are those rows of the table that the first reports,
  -- then those that the second reports.
  get_alarm_defs_both :
      (word1 word2 : ℕ) (s t u : Session)
      → read_alarm_word w 1 s ≡ (ok word1, t)
      → read_alarm_word w 2 t ≡ (ok word2, u)
      → get_alarm_defs w s ≡ (ok (reported 1 word1 ++ reported 2 word2), u)
  unfolding get_alarm_defs read_banks
  get_alarm_defs_both word1 word2 s t u h g =
      bind_ok (read_bank w 1) (λ more. read_banks w (2 ∷ []) more)
        (bank_ok 1 word1 s t (inl refl) h)
      ∙ bind_ok (read_bank w 2) (λ more. pure (reported 1 word1 ++ more))
          (bank_ok 2 word2 t u (inr refl) g)

  -- A charger that does not answer for the second bank has no alarms in it: the alarms are those of
  -- the first bank, and there is no error.
  get_alarm_defs_one :
      (word1 : ℕ) (s t u : Session)
      → read_alarm_word w 1 s ≡ (ok word1, t)
      → read_alarm_word w 2 t ≡ (raise timeout_error, u)
      → get_alarm_defs w s ≡ (ok (reported 1 word1), u)
  unfolding get_alarm_defs read_banks
  get_alarm_defs_one word1 s t u h g =
      bind_ok (read_bank w 1) (λ more. read_banks w (2 ∷ []) more)
        (bank_ok 1 word1 s t (inl refl) h)
      ∙ bind_ok (read_bank w 2) (λ more. pure (reported 1 word1 ++ more)) (bank_silent t u g)
      ∙ ap (λ l. (ok l, u)) (append-nil (reported 1 word1))

  -- Whatever stops the read of the first bank, a silent charger included, is raised, and the second
  -- bank is not asked for.
  get_alarm_defs_fails :
      (e : Exception) (s t : Session)
      → read_alarm_word w 1 s ≡ (err e, t)
      → get_alarm_defs w s ≡ (err e, t)
  unfolding get_alarm_defs read_banks
  get_alarm_defs_fails e s t h =
      bind_err (read_bank w 1) (λ more. read_banks w (2 ∷ []) more) (first_fails e s t h)

  second_fails :
      (e : Exception) (s t : Session)
      → read_alarm_word w 2 s ≡ (err e, t)
      → is_timeout e ≡ false
      → read_bank w 2 s ≡ (err e, t)
  unfolding read_bank decode_word
  second_fails e s t h other = ap (decode_word 2) h ∙ rw other refl

  get_alarm_defs_second :
      (word1 : ℕ) (e : Exception) (s t u : Session)
      → read_alarm_word w 1 s ≡ (ok word1, t)
      → read_alarm_word w 2 t ≡ (err e, u)
      → is_timeout e ≡ false
      → get_alarm_defs w s ≡ (err e, u)
  unfolding get_alarm_defs read_banks
  get_alarm_defs_second word1 e s t u h g other =
      bind_ok (read_bank w 1) (λ more. read_banks w (2 ∷ []) more)
        (bank_ok 1 word1 s t (inl refl) h)
      ∙ bind_err (read_bank w 2) (λ more. pure (reported 1 word1 ++ more))
          (second_fails e t u g other)

  -- The alarms by the outcomes of the two reads, and the session that the method ends in.
  abbrev pub gathered : Result ℕ × Session → Result ℕ × Session → Result (List AlarmDef) × Session
  gathered (err e, t) second = (err e, t)
  gathered (ok word1, t) (ok word2, u) = (ok (reported 1 word1 ++ reported 2 word2), u)
  gathered (ok word1, t) (err e, u) =
      if is_timeout e then (ok (reported 1 word1), u) else (err e, u)

  timeout_only : (e : Exception) → is_timeout e ≡ true → e ≡ spinev timeout_error
  timeout_only (spinev timeout_error) h = refl
  timeout_only (spinev connection_error) h = cc
  timeout_only (spinev protocol_error) h = cc
  timeout_only (spinev password_error) h = cc
  timeout_only (spinev command_rejected_error) h = cc
  timeout_only (spinev busy_error) h = cc
  timeout_only (spinev unsupported_error) h = cc
  timeout_only (spinev type_error) h = cc
  timeout_only (spinev value_error) h = cc
  timeout_only builtin_value_error h = cc
  timeout_only struct_error h = cc
  timeout_only builtin_timeout_error h = cc
  timeout_only other_exception h = cc

  by_outcomes :
      (s t u : Session) (r1 r2 : Result ℕ)
      → read_alarm_word w 1 s ≡ (r1, t)
      → read_alarm_word w 2 t ≡ (r2, u)
      → get_alarm_defs w s ≡ gathered (r1, t) (r2, u)
  by_outcomes s t u (err e) r2 h g = get_alarm_defs_fails e s t h
  by_outcomes s t u (ok word1) (ok word2) h g = get_alarm_defs_both word1 word2 s t u h g
  by_outcomes s t u (ok word1) (err e) h g = elim (Bool-cases (is_timeout e)) [
    | inl k ↦
        get_alarm_defs_one word1 s t u h (g ∙ ap (λ x. (err x, u)) (timeout_only e k))
        ∙ sym (ap (λ b. if b then (ok (reported 1 word1), u) else (err e, u)) k)
    | inr k ↦ get_alarm_defs_second word1 e s t u h g k ∙ rw k refl
  ]

  -- The alarms, in every course of the reads of the two alarm words. When both are read, the alarms
  -- are those rows of the table that the first word reports, then those that the second reports. A
  -- charger that does not answer for the second bank has no alarms in it, which is no error. Whatever
  -- else stops a read is raised, and behind a failure of the first the second is not made.
  pub get_alarm_defs-gathered :
      (s : Session)
      → let first = read_alarm_word w 1 s in
        get_alarm_defs w s ≡ gathered first (read_alarm_word w 2 first.1)
  get_alarm_defs-gathered s =
      let (r1, t) = read_alarm_word w 1 s in
      let (r2, u) = read_alarm_word w 2 t in by_outcomes s t u r1 r2 refl refl
