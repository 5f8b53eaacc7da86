-- ===== src/Orchestration/Machine/Table.antt =====
-- internal/orchestration/transitions.go, `defaultTransitions`: the rows of the rollout table, in the
-- order of the source.
use velkir.Prelude.{not, ◌&&◌, ◌||◌, List, [], ◌∷◌, ◌++◌, Bool, Option, none, some, String}
use velkir.Prelude.Int.{pos}
use velkir.Prelude.Time.{Duration}
use velkir.Orchestration.Machine.{
  State, bootstrap, steady, rollout_pending, rollout_replicas, rollout_primary, failover_in_flight,
  rollout_complete, degraded, degraded_quorum_lost, exited, Event, cr_created,
  quorum_primary_agreed, reconcile_tick, rollout_trigger, switch_master, split_brain_detected,
  replica_selected, replica_rolled, all_replicas_rolled, quorum_lost, quorum_lost_sustained,
  quorum_reached, spec_changed, failover_end, failover_end_for_timeout, failover_abort,
  failover_timeout_exceeded, old_primary_ready, recovered, cr_deleted, GuardCtx, SideEffect,
  no_effect, Transition,
}

abbrev effect : String → Duration → SideEffect
effect reason wait = record { event_reason = reason; requeue_after = wait }

abbrev row : String → State → Event → Option (GuardCtx → Bool) → State → SideEffect → Transition
row tag s e g next eff = record {
  tag = tag;
  from = s;
  event = e;
  guard = g;
  next_state = next;
  side_effect = eff;
}

-- The rows that enter the observation-only state, one for each originating state.
abbrev sustained_loss : String → State → Transition
sustained_loss tag s =
    row tag s quorum_lost_sustained none degraded_quorum_lost (effect "QuorumLost" (pos 0))

-- The rows that leave on the deletion of the resource.
abbrev deletion : String → State → Transition
deletion tag s = row tag s cr_deleted none exited no_effect

-- Start-up, the rollout of the replicas, and the hand-off of the primary.
unfoldable pub rollout_rows : List Transition
rollout_rows =
    row "T1" bootstrap cr_created (some (λ c. not c.quorum_primary_agreed)) bootstrap
      (effect "" (pos 5_000_000_000))
    ∷ row "T2" bootstrap quorum_primary_agreed
        (some (λ c. c.quorum_primary_agreed && c.pod0_labeled_primary)) steady
        (effect "BootstrapCompleted" (pos 0))
    ∷ row "T3" steady rollout_trigger (some (λ c. c.quorum_ok)) rollout_pending
        (effect "RolloutStarted" (pos 0))
    ∷ row "T4" steady rollout_trigger (some (λ c. not c.quorum_ok)) steady
        (effect "RolloutDeferred" (pos 10_000_000_000))
    ∷ row "T5" steady switch_master none failover_in_flight (effect "UnexpectedFailover" (pos 0))
    ∷ row "T6" steady split_brain_detected none degraded (effect "SplitBrainDetected" (pos 0))
    ∷ row "T7" rollout_pending reconcile_tick
        (some (λ c. c.quorum_ok && c.quorum_primary_agreed && c.candidate_replica_ready))
        rollout_replicas (no_effect)
    ∷ row "T8" rollout_pending reconcile_tick (some (λ c. not c.quorum_ok || c.split_brain))
        degraded (effect "RolloutAbortedQuorumLost" (pos 0))
    ∷ row "T9" rollout_replicas replica_selected none rollout_replicas (no_effect)
    ∷ row "T10" rollout_replicas replica_rolled (some (λ c. c.has_more_replicas)) rollout_replicas
        (no_effect)
    ∷ row "T11" rollout_replicas all_replicas_rolled none rollout_primary
        (effect "ReplicasRolled" (pos 0))
    ∷ row "T12" rollout_replicas quorum_lost none degraded
        (effect "RolloutAbortedQuorumLost" (pos 0))
    ∷ row "T13" rollout_replicas spec_changed none rollout_replicas
        (effect "SpecChangeDeferred" (pos 0))
    ∷ row "T14" rollout_primary reconcile_tick
        (some (λ c. c.quorum_ok && c.candidate_replica_ready)) failover_in_flight
        (effect "FailoverInitiated" (pos 0))
    ∷ row "T15" rollout_primary reconcile_tick
        (some (λ c. not c.quorum_ok || not c.candidate_replica_ready)) degraded
        (effect "PrimaryRolloutBlocked" (pos 0))
    ∷ []

-- A failover in flight, its completion, and the recovery from a degraded state.
unfoldable pub failover_rows : List Transition
failover_rows =
    row "T16" failover_in_flight failover_end
      (some (λ c. c.new_primary_stable && c.quorum_primary_agreed && not c.split_brain))
      rollout_complete (effect "FailoverSucceeded" (pos 0))
    ∷ row "T17" failover_in_flight failover_end_for_timeout none rollout_complete
        (effect "FailoverSucceededWithTimeout" (pos 0))
    ∷ row "T18" failover_in_flight failover_abort none degraded (effect "FailoverAborted" (pos 0))
    ∷ row "T19" failover_in_flight failover_timeout_exceeded none degraded
        (effect "FailoverStalled" (pos 0))
    ∷ row "T20" rollout_complete reconcile_tick (some (λ c. c.old_primary_now_replica))
        rollout_complete (no_effect)
    ∷ row "T21" rollout_complete old_primary_ready (some (λ c. c.old_primary_replica_ready)) steady
        (effect "RolloutCompleted" (pos 0))
    ∷ row "T22" degraded recovered
        (some (λ c. c.quorum_ok && not c.split_brain && not c.rollout_suspended_from_pending))
        steady (effect "DegradedResolved" (pos 0))
    ∷ row "T23" degraded recovered
        (some (λ c. c.quorum_ok && not c.split_brain && c.rollout_suspended_from_pending))
        rollout_pending (effect "RolloutResumed" (pos 0))
    ∷ []

-- Sustained quorum loss and the way out of it.
unfoldable pub quorum_rows : List Transition
quorum_rows =
    sustained_loss "T25-Bootstrap" bootstrap
    ∷ sustained_loss "T26-Steady" steady
    ∷ sustained_loss "T27-RolloutPending" rollout_pending
    ∷ sustained_loss "T28-RolloutReplicas" rollout_replicas
    ∷ sustained_loss "T29-RolloutPrimary" rollout_primary
    ∷ sustained_loss "T30-FailoverInFlight" failover_in_flight
    ∷ sustained_loss "T31-RolloutComplete" rollout_complete
    ∷ sustained_loss "T32-Degraded" degraded
    ∷ row "T33" degraded_quorum_lost quorum_reached
        (some (λ c. c.ckquorum_ok_hysteresis_passed && not c.rollout_suspended_from_pending)) steady
        (effect "QuorumReached" (pos 0))
    ∷ row "T34" degraded_quorum_lost quorum_reached
        (some (λ c. c.ckquorum_ok_hysteresis_passed && c.rollout_suspended_from_pending))
        rollout_pending (effect "QuorumReached" (pos 0))
    ∷ []

-- The exits.
unfoldable pub deletion_rows : List Transition
deletion_rows =
    deletion "T24-Bootstrap" bootstrap
    ∷ deletion "T24-Steady" steady
    ∷ deletion "T24-RolloutPending" rollout_pending
    ∷ deletion "T24-RolloutReplicas" rollout_replicas
    ∷ deletion "T24-RolloutPrimary" rollout_primary
    ∷ deletion "T24-FailoverInFlight" failover_in_flight
    ∷ deletion "T24-RolloutComplete" rollout_complete
    ∷ deletion "T24-Degraded" degraded
    ∷ deletion "T24-DegradedQuorumLost" degraded_quorum_lost
    ∷ []

unfoldable pub default_transitions : List Transition
unfolding rollout_rows failover_rows quorum_rows deletion_rows
default_transitions = rollout_rows ++ (failover_rows ++ (quorum_rows ++ deletion_rows))
