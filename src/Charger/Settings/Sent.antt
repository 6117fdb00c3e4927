-- ===== src/Charger/Settings/Sent.antt =====
-- What the setters hand to the transport.
use mathlib.Core.List.{append-nil, append_assoc}
use spinev_ble.Base.{◌≡◌, refl, sym, ap, subst, ◌∙◌, Bool, true, false, List, [], ◌∷◌, ◌++◌}
use spinev_ble.Errors.{Exception, Result, ok, err}
use spinev_ble.Models.{Bytes}
use spinev_ble.Charger.Exchange.Sound.{IsIdle}
use spinev_ble.Charger.Session.{World, Session, lift, ◌>>=◌, write_frames}
use spinev_ble.Charger.Session.Rules.{write_frames-IsOrderly}
use spinev_ble.Charger.Session.Trace.{Wrote, write_frames-Wrote}
use spinev_ble.Charger.Session.Steps.{bind_ok, bind_err, bind_inv}
use spinev_ble.Charger.Settings.{commit_frames}
use spinev_ble.Charger.Settings.Methods.{commit, commit_if, apply_frames}
use spinev_ble.Protocol.Frames.{build_commit}

-- The frame of a commit.
abbrev pub commit_bytes : Bytes
commit_bytes = 0x10 ∷ 0xAC ∷ 0x3B ∷ 0x01 ∷ 0x01 ∷ 0x00 ∷ 0x00 ∷ 0x00 ∷ []

abbrev pub commit_part : Bool → List Bytes
commit_part true = commit_bytes ∷ []
commit_part false = []

commit_frames_lem : commit_frames ≡ ok (commit_bytes ∷ [])
unfolding commit_frames build_commit
commit_frames_lem = refl

-- Both records of the same session are of its client and its frames.
module _ (w : World) where
  wrote_all :
      (frames : List Bytes) (s : Session)
      → IsIdle s.client
      → write_frames w frames s ≡ (ok tt, (write_frames w frames s).1)
      → (write_frames w frames s).1.handed ≡ s.handed ++ frames
  wrote_all frames s i h =
      subst (λ p. Wrote frames s (write_frames w frames s).1 p.0) h
        (write_frames-Wrote w frames s i)

  commit_lem : (s : Session) → commit w s ≡ write_frames w (commit_bytes ∷ []) s
  unfolding commit
  commit_lem s = bind_ok (lift commit_frames) (write_frames w) (ap (λ r. (r, s)) commit_frames_lem)

  commit_if_sent :
      (b : Bool) (s : Session)
      → IsIdle s.client
      → (commit_if w b s).0 ≡ ok tt
      → (commit_if w b s).1.handed ≡ s.handed ++ commit_part b
  unfolding commit_if
  commit_if_sent true s i h =
      ap (λ p. p.1.handed) (commit_lem s)
      ∙ wrote_all (commit_bytes ∷ []) s i (
          ap (λ r. (r, (write_frames w (commit_bytes ∷ []) s).1))
            (sym (ap (λ p. p.0) (commit_lem s)) ∙ h))
  commit_if_sent false s i h = sym (append-nil s.handed)

  -- A setter whose checks fail raises that failure, and neither sends nor changes anything.
  pub apply_frames_invalid :
      (frames : Result (List Bytes)) (e : Exception) (b : Bool) (s : Session)
      → frames ≡ err e
      → apply_frames w frames b s ≡ (err e, s)
  unfolding apply_frames
  apply_frames_invalid frames e b s h =
      bind_err (lift frames) (λ fs. write_frames w fs >>= λ _. commit_if w b) (ap (λ r. (r, s)) h)

  -- A setter whose checks pass and that returns, with nothing in flight before, has handed over its
  -- frames in their order, and behind them the commit frame exactly if the commit was asked for.
  pub apply_frames_sent :
      (fs : List Bytes) (b : Bool) (s : Session)
      → IsIdle s.client
      → (apply_frames w (ok fs) b s).0 ≡ ok tt
      → (apply_frames w (ok fs) b s).1.handed ≡ s.handed ++ (fs ++ commit_part b)
  unfolding apply_frames
  apply_frames_sent fs b s i h =
      let (_, e, g) = bind_inv (write_frames w fs) (λ _. commit_if w b) s h in
      let t = (write_frames w fs s).1 in
      ap (λ p. p.1.handed) g
      ∙ commit_if_sent b t ((write_frames-IsOrderly w fs).keeps s i).idle
          (sym (ap (λ p. p.0) g) ∙ h)
      ∙ ap (λ (l : List Bytes). l ++ commit_part b) (wrote_all fs s i e)
      ∙ append_assoc s.handed fs (commit_part b)
