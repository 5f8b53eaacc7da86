-- ===== src/Controller/Quorum/Recovery.antt =====
-- The gate is left once the quorum stays.
use velkir.Prelude.{ℕ, suc, ◌≤◌, ◌≡◌, ◌⊎◌, refl, inr, false, List, [], ◌∷◌, ◌++◌, arith, length}
use velkir.Prelude.Int.{pos, ◌≤ℤ◌, ◌<ℤ◌}
use velkir.Prelude.Time.{Time}
use velkir.Sentinel.Types.{QuorumStatus}
use velkir.Controller.Quorum.{
  CrQuorumState, Reading, QuorumSuppressionTunables, update_quorum_suppression,
  effective_recovery_polls, count_poll, on_quorum_ok, on_quorum_lost, on_quorum, on_loss,
}
use velkir.Controller.Quorum.Gate.{state_after}

-- The stamp of the latest poll, or this one.
abbrev pub latest : Time → List Reading → Time
latest base [] = base
latest base (r ∷ rs) = r.polled_at

-- All these readings, the latest first, have the quorum, each by a newer poll than the one before.
abbrev pub Rising : Time → List Reading → Type 0
Rising base [] = Unit
Rising base (r ∷ rs) =
    (r.quorum ≡ QuorumStatus.reachable) × (latest base rs <ℤ r.polled_at) × Rising base rs

-- Either the gate is open, or so many polls are counted, the last at this time, and more are wanted.
abbrev Counting : QuorumSuppressionTunables → ℕ → Time → CrQuorumState → Type 0
Counting t n last st =
    (st.suppression_active ≡ false)
    ⊎ ((n ≤ st.quorum_ok_consecutive_polls)
        × (st.quorum_ok_last_counted_poll ≡ last)
        × (pos st.quorum_ok_consecutive_polls <ℤ effective_recovery_polls t))

recovery_positive : (t : QuorumSuppressionTunables) → pos 0 <ℤ effective_recovery_polls t
unfolding effective_recovery_polls
recovery_positive t = ground arith

ok-Counting :
    (t : QuorumSuppressionTunables) (n : ℕ) (last polled_at : Time) (st : CrQuorumState)
    → last <ℤ polled_at
    → Counting t n last st
    → Counting t (suc n) polled_at (on_quorum_ok t polled_at st).state
unfolding on_quorum_ok count_poll
ok-Counting t n last polled_at st newer h = ground (arith, h)

abbrev Wanting : QuorumSuppressionTunables → CrQuorumState → Type 0
Wanting t st = pos st.quorum_ok_consecutive_polls <ℤ effective_recovery_polls t

on_quorum-Wanting :
    (q : QuorumStatus) (t : QuorumSuppressionTunables) (r : Reading) (st : CrQuorumState)
    → Wanting t st
    → Wanting t (on_quorum q t r st).state
unfolding on_quorum on_quorum_ok count_poll on_quorum_lost on_loss
on_quorum-Wanting QuorumStatus.unknown t r st h = h
on_quorum-Wanting QuorumStatus.reachable t r st h = ground (arith, h, recovery_positive t)
on_quorum-Wanting QuorumStatus.lost t r st h = ground (arith, h, recovery_positive t)

state_after-Wanting :
    (t : QuorumSuppressionTunables) (rs : List Reading) → Wanting t (state_after t rs)
unfolding state_after update_quorum_suppression
state_after-Wanting t [] = recovery_positive t
state_after-Wanting t (r ∷ rs) =
    on_quorum-Wanting r.quorum t r (record (state_after t rs) { last_quorum = r.quorum })
      (state_after-Wanting t rs)

quorum-Counting :
    (q : QuorumStatus) (t : QuorumSuppressionTunables) (n : ℕ) (last : Time) (r : Reading)
    (st : CrQuorumState)
    → q ≡ QuorumStatus.reachable
    → last <ℤ r.polled_at
    → Counting t n last st
    → Counting t (suc n) r.polled_at (on_quorum q t r st).state
unfolding on_quorum
quorum-Counting QuorumStatus.reachable t n last r st e newer h =
    ok-Counting t n last r.polled_at st newer h
quorum-Counting QuorumStatus.unknown t n last r st e newer h = cc
quorum-Counting QuorumStatus.lost t n last r st e newer h = cc

module _ (t : QuorumSuppressionTunables) (history : List Reading) where
  abbrev counted : Time
  counted = (state_after t history).quorum_ok_last_counted_poll

  state_after-Counting :
      (rs : List Reading)
      → Rising counted rs
      → Counting t (length rs) (latest counted rs) (state_after t (rs ++ history))
  unfolding state_after update_quorum_suppression
  state_after-Counting [] h = inr (omega arith, refl, state_after-Wanting t history)
  state_after-Counting (r ∷ rs) (ok, newer, h) =
      quorum-Counting r.quorum t (length rs) (latest counted rs) r
        (record (state_after t (rs ++ history)) { last_quorum = r.quorum }) ok newer
        (state_after-Counting rs h)

  -- Whatever came before, the gate is open after as many readings in a row as the tunable asks for that
  -- have the quorum, each by a newer poll.
  pub gate_opens :
      (rs : List Reading)
      → Rising counted rs
      → effective_recovery_polls t ≤ℤ pos (length rs)
      → (state_after t (rs ++ history)).suppression_active ≡ false
  gate_opens rs h enough = ground (arith, state_after-Counting rs h)
