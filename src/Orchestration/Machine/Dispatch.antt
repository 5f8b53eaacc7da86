-- ===== src/Orchestration/Machine/Dispatch.antt =====
-- The rollout table as nested cases: which event moves which state, under which condition.
-- The lemmas about the machine reason over these cases instead of the forty-two rows.
use velkir.Prelude.{◌≡◌, true, false, not, ◌&&◌, ◌||◌, String, arith, if◌then◌else◌}
use velkir.Prelude.Int.{pos}
use velkir.Prelude.Time.{Duration}
use velkir.Orchestration.Machine.Table.{default_transitions}
use velkir.Orchestration.Machine.{
  State, bootstrap, steady, rollout_pending, rollout_replicas, rollout_primary, failover_in_flight,
  rollout_complete, degraded, degraded_quorum_lost, exited, Event, cr_created,
  quorum_primary_agreed, reconcile_tick, rollout_trigger, switch_master, split_brain_detected,
  replica_selected, replica_rolled, all_replicas_rolled, quorum_lost, quorum_lost_sustained,
  quorum_reached, spec_changed, failover_end, failover_end_for_timeout, failover_abort,
  failover_timeout_exceeded, old_primary_ready, recovered, cr_deleted, GuardCtx, no_effect, Verdict,
  apply,
}

abbrev move : State → String → Verdict
move s reason = (s, record { event_reason = reason; requeue_after = pos 0 }, true)

abbrev pub ignore : State → Verdict
ignore s = (s, no_effect, false)

abbrev wait : State → String → Duration → Verdict
wait s reason d = (s, record { event_reason = reason; requeue_after = d }, true)

-- Every state but `exited` leaves on a deletion, and every state but `exited` and
-- `degraded_quorum_lost` enters the latter on a sustained loss of quorum.
unfoldable pub dispatch : State → Event → GuardCtx → Verdict
dispatch exited e c = ignore exited
dispatch degraded_quorum_lost cr_deleted c = move exited ""
dispatch degraded_quorum_lost quorum_reached c =
    if c.ckquorum_ok_hysteresis_passed
    then move (if c.rollout_suspended_from_pending then rollout_pending else steady) "QuorumReached"
    else ignore degraded_quorum_lost
dispatch degraded_quorum_lost e c = ignore degraded_quorum_lost
dispatch s cr_deleted c = move exited ""
dispatch s quorum_lost_sustained c = move degraded_quorum_lost "QuorumLost"
dispatch bootstrap cr_created c =
    if c.quorum_primary_agreed then ignore bootstrap else wait bootstrap "" (pos 5_000_000_000)
dispatch bootstrap quorum_primary_agreed c =
    if c.quorum_primary_agreed && c.pod0_labeled_primary
    then move steady "BootstrapCompleted"
    else ignore bootstrap
dispatch steady rollout_trigger c =
    if c.quorum_ok
    then move rollout_pending "RolloutStarted"
    else wait steady "RolloutDeferred" (pos 10_000_000_000)
dispatch steady switch_master c = move failover_in_flight "UnexpectedFailover"
dispatch steady split_brain_detected c = move degraded "SplitBrainDetected"
dispatch rollout_pending reconcile_tick c =
    if c.quorum_ok && c.quorum_primary_agreed && c.candidate_replica_ready
    then move rollout_replicas ""
    else if not c.quorum_ok || c.split_brain
    then move degraded "RolloutAbortedQuorumLost"
    else ignore rollout_pending
dispatch rollout_replicas replica_selected c = move rollout_replicas ""
dispatch rollout_replicas replica_rolled c =
    if c.has_more_replicas then move rollout_replicas "" else ignore rollout_replicas
dispatch rollout_replicas all_replicas_rolled c = move rollout_primary "ReplicasRolled"
dispatch rollout_replicas quorum_lost c = move degraded "RolloutAbortedQuorumLost"
dispatch rollout_replicas spec_changed c = move rollout_replicas "SpecChangeDeferred"
dispatch rollout_primary reconcile_tick c =
    if c.quorum_ok && c.candidate_replica_ready
    then move failover_in_flight "FailoverInitiated"
    else move degraded "PrimaryRolloutBlocked"
dispatch failover_in_flight failover_end c =
    if c.new_primary_stable && c.quorum_primary_agreed && not c.split_brain
    then move rollout_complete "FailoverSucceeded"
    else ignore failover_in_flight
dispatch failover_in_flight failover_end_for_timeout c =
    move rollout_complete "FailoverSucceededWithTimeout"
dispatch failover_in_flight failover_abort c = move degraded "FailoverAborted"
dispatch failover_in_flight failover_timeout_exceeded c = move degraded "FailoverStalled"
dispatch rollout_complete reconcile_tick c =
    if c.old_primary_now_replica then move rollout_complete "" else ignore rollout_complete
dispatch rollout_complete old_primary_ready c =
    if c.old_primary_replica_ready then move steady "RolloutCompleted" else ignore rollout_complete
dispatch degraded recovered c =
    if c.quorum_ok && not c.split_brain
    then (if c.rollout_suspended_from_pending
        then move rollout_pending "RolloutResumed"
        else move steady "DegradedResolved")
    else ignore degraded
dispatch s e c = ignore s

pub apply-dispatch :
    (s : State) (e : Event) (c : GuardCtx) → apply default_transitions s e c ≡ dispatch s e c
unfolding apply default_transitions dispatch
apply-dispatch bootstrap cr_created c = ground arith
apply-dispatch _ _ c = ground arith
