-- ===== src/Controller/DeriveState/Observed.antt =====
-- Which states a pass can observe at all.
use velkir.Prelude.{
  Bool-cases, ◌≢◌, inl, inr, not, ◌&&◌, List, [], ◌∷◌, Option, none, some, String, arith,
}
use velkir.Prelude.Time.{Time}
use velkir.Sentinel.Types.{Snapshot}
use velkir.Orchestration.Machine.{
  State, rollout_pending, rollout_complete, degraded_quorum_lost, exited,
}
use velkir.Controller.Pods.{Pod}
use velkir.Controller.Latch.{FailoverLatch}
use velkir.Controller.DeriveState.{
  ObservedFacts, derive_state_from_facts, empty_survey, survey, Resource, derive_with_sts,
  derive_facts, derive_state,
}

-- What a pass can observe.
abbrev pub Observed : State → Type 0
Observed s =
    (s ≢ rollout_pending) × (s ≢ rollout_complete) × (s ≢ degraded_quorum_lost) × (s ≢ exited)

facts-Observed : (f : ObservedFacts) → Observed (derive_state_from_facts f)
unfolding derive_state_from_facts
facts-Observed f = (ground arith, ground arith, ground arith, ground arith)

with_sts-Observed :
    (v : Resource) (f : ObservedFacts) (pods : List Pod) (target : String)
    → Observed (derive_with_sts v f pods target).0
unfolding derive_with_sts
with_sts-Observed v f [] target = facts-Observed f
with_sts-Observed v f (p ∷ ps) target =
    elim (Bool-cases (
      not (survey target empty_survey (p ∷ ps)).primary_seen
      && (survey target empty_survey (p ∷ ps)).any_replica_seen)) [
        | inl blank ↦ rw blank (λ e. cc, λ e. cc, λ e. cc, λ e. cc)
        | inr there ↦ rw there (facts-Observed _)
      ]

-- No pass observes a pending or a completed rollout, the observation-only state or the exit: these are
-- states of the table only.
pub derive-Observed :
    (now : Time) (v : Resource) (observer : Option Snapshot) (latch : Option FailoverLatch)
    (pods : List Pod) (sts : Option String)
    → Observed (derive_state now v observer latch pods sts).0.0
unfolding derive_state derive_facts
derive-Observed now v observer latch pods none = facts-Observed _
derive-Observed now v observer latch pods (some target) = with_sts-Observed v _ pods target
