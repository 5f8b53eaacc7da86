-- ===== src/Orchestration/Status/PhaseLaws.antt =====
-- The phase against the observation, through all the conditions.
use velkir.Prelude.{
  true, false, ◌≡◌, ◌↔◌, refl, ◌&&◌, not, Option, none, some, inl, inr, arith, Bool-cases,
  if◌then◌else◌,
}
use velkir.Prelude.Int.{pos, ◌≤ℤ◌, ◌<ℤ◌}
use velkir.Orchestration.Observation.{StatefulSet, Observation, Phase, fails}
use velkir.Orchestration.Evaluators.{
  ready_of_sts, eval_ready, eval_available, eval_progressing, eval_reconciled, eval_quorum_lost,
  desired_replicas, in_mode, is_sentinel, is_true, is_false,
}
use velkir.Orchestration.Degraded.{eval_degraded, is_sub_ha_sentinel}
use velkir.Orchestration.Status.Laws.{
  evaluated-ready, evaluated-available, evaluated-progressing, evaluated-reconciled,
  evaluated-degraded, evaluated-quorum,
}
use velkir.Orchestration.Status.{evaluate, derive_phase}

-- The phase, read off the evaluators instead of the list.
phase_of : Observation → Phase
phase_of o =
    if o.is_paused
    then Phase.paused
    else if is_true (eval_degraded o).status
    then Phase.degraded
    else if is_false (eval_reconciled o).status
    then Phase.degraded
    else if is_true (eval_quorum_lost o).status
    then Phase.degraded
    else elim o.sts [
      | none ↦ Phase.pending
      | some sts ↦
          if is_true (eval_ready o).status
          then Phase.ready
          else if is_true (eval_available o).status && is_true (eval_progressing o).status
          then Phase.progressing
          else if is_true (eval_available o).status
          then Phase.available
          else Phase.progressing
    ]

evaluate-phase : (o : Observation) → (evaluate o).1 ≡ phase_of o
unfolding evaluate derive_phase phase_of
evaluate-phase o = ground (
  arith,
  evaluated-ready o,
  evaluated-available o,
  evaluated-progressing o,
  evaluated-reconciled o,
  evaluated-degraded o,
  evaluated-quorum o,
)

-- Nothing is wrong: no expired watchdog, no error, no divergence, no suppressed or disputed quorum,
-- no lost master, and enough replicas for a failover.
pub record IsSound (o : Observation) : Type 0 where
  pub no_stall : o.rollout_watchdog.active && o.rollout_watchdog.expired ≡ false
  pub no_error : o.reconcile_error ≡ false
  pub one_master : o.dual_master_active ≡ false
  pub linked : o.sentinel_peer_linkup_stuck_active ≡ false
  pub has_quorum : o.quorum_suppression_active && in_mode is_sentinel o.cr ≡ false
  pub master_agreed : o.no_master_agreement_active ≡ false
  pub no_split : o.split_brain_active ≡ false
  pub enough_replicas : is_sub_ha_sentinel o.cr ≡ false

degraded-IsSound : (o : Observation) → ((eval_degraded o).status ≡ fails) ↔ IsSound o
unfolding eval_degraded
degraded-IsSound o = (ground arith, ground arith)

degraded_definite :
    (o : Observation) → is_true (eval_degraded o).status ≡ not (is_false (eval_degraded o).status)
unfolding eval_degraded
degraded_definite o = ground arith

-- A failed reconcile and a lost quorum are degradations as well.
reconciled-degraded :
    (o : Observation)
    → is_false (eval_reconciled o).status ≡ true
    → is_true (eval_degraded o).status ≡ true
unfolding eval_reconciled eval_degraded
reconciled-degraded o h = ground arith

-- Whenever the QuorumLost condition is true, Degraded is true too.
pub quorum_lost-degraded :
    (o : Observation)
    → is_true (eval_quorum_lost o).status ≡ true
    → is_true (eval_degraded o).status ≡ true
unfolding eval_quorum_lost eval_degraded
quorum_lost-degraded o h = ground arith

phase_of-degraded :
    (o : Observation)
    → (phase_of o ≡ Phase.degraded)
      ↔ ((o.is_paused ≡ false) × (is_true (eval_degraded o).status ≡ true))
unfolding phase_of
phase_of-degraded o = (
  ground (arith, reconciled-degraded o, quorum_lost-degraded o),
  ground (arith, reconciled-degraded o, quorum_lost-degraded o),
)

degraded_unless-IsSound :
    (o : Observation) → (is_true (eval_degraded o).status ≡ true) ↔ (¬ IsSound o)
degraded_unless-IsSound o = (
  λ bad sound. ground (arith, bad, (degraded-IsSound o).1 sound),
  λ unsound. elim (Bool-cases (is_true (eval_degraded o).status)) [
    | inl bad ↦ bad
    | inr fine ↦
        absurd (unsound ((degraded-IsSound o).0 (ground (arith, fine, degraded_definite o))))
  ],
)

-- The phase is Degraded exactly when the resource is not paused and something is wrong: the further
-- tests on Reconciled and QuorumLost add no case.
pub phase-degraded :
    (o : Observation) → ((evaluate o).1 ≡ Phase.degraded) ↔ ((o.is_paused ≡ false) × (¬ IsSound o))
phase-degraded o = rw (evaluate-phase o) (
  λ h. (((phase_of-degraded o).0 h).0, (degraded_unless-IsSound o).0 ((phase_of-degraded o).0 h).1),
  λ h. (phase_of-degraded o).1 (h.0, (degraded_unless-IsSound o).1 h.1),
)

-- The StatefulSet wants at least one replica and has as many ready as it wants.
abbrev pub FullyReady : Option StatefulSet → Type 0
FullyReady none = ⊥
FullyReady (some sts) =
    (desired_replicas sts ≤ℤ sts.ready_replicas) × (pos 0 <ℤ desired_replicas sts)

sts-FullyReady :
    (sts : Option StatefulSet) → (is_true (ready_of_sts sts).status ≡ true) ↔ FullyReady sts
unfolding ready_of_sts
sts-FullyReady none = (λ h. cc, λ h. absurd h)
sts-FullyReady (some sts) = (ground arith, ground arith)

ready_holds :
    (o : Observation)
    → (is_true (eval_ready o).status ≡ true) ↔ (
        (o.dual_master_active ≡ false)
        × (o.no_master_agreement_active ≡ false)
        × (o.master_lost_active ≡ false)
        × (is_true (ready_of_sts o.sts).status ≡ true))
unfolding eval_ready
ready_holds o = (ground arith, ground arith)

FullyReady-some : (sts : Option StatefulSet) → FullyReady sts → (s : StatefulSet) × (sts ≡ some s)
FullyReady-some none h = absurd h
FullyReady-some (some s) h = (s, refl)

ready_has_sts :
    (o : Observation)
    → is_true (eval_ready o).status ≡ true
    → (sts : StatefulSet) × (o.sts ≡ some sts)
ready_has_sts o h = FullyReady-some o.sts ((sts-FullyReady o.sts).0 ((ready_holds o).0 h).3)

phase_of-ready :
    (o : Observation)
    → (phase_of o ≡ Phase.ready) ↔ (
        (o.is_paused ≡ false)
        × (is_true (eval_degraded o).status ≡ false)
        × (is_true (eval_ready o).status ≡ true))
unfolding phase_of
phase_of-ready o = (
  ground arith,
  λ h. ground (arith, reconciled-degraded o, quorum_lost-degraded o, ready_has_sts o h.2),
)

-- The phase is Ready exactly when the resource is not paused, nothing is wrong, the labelled master
-- answers, and the StatefulSet wants at least one replica and has as many ready as it wants.
pub phase-ready :
    (o : Observation)
    → ((evaluate o).1 ≡ Phase.ready)
      ↔ ((o.is_paused ≡ false) × IsSound o × (o.master_lost_active ≡ false) × FullyReady o.sts)
phase-ready o = rw (evaluate-phase o) (
  λ h.
      let (live, fine, up) = (phase_of-ready o).0 h in
      let (_, _, answers, full) = (ready_holds o).0 up in
      (
        live,
        (degraded-IsSound o).0 (ground (arith, fine, degraded_definite o)),
        answers,
        (sts-FullyReady o.sts).0 full,
      ),
  λ h. (phase_of-ready o).1 (
    h.0,
    ground (arith, (degraded-IsSound o).1 h.1),
    (ready_holds o).1 (h.1.one_master, h.1.master_agreed, h.2, (sts-FullyReady o.sts).1 h.3),
  ),
)
