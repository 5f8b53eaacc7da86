-- ===== src/Orchestration/Machine/Safety.antt =====
-- What the rollout table lets happen: when a success is declared, when the operator starts a
-- failover, and how the observation-only state is left.
use velkir.Prelude.{◌≡◌, ◌≢◌, ◌↔◌, ◌⊎◌, true, false, arith}
use velkir.Orchestration.Machine.Table.{default_transitions}
use velkir.Orchestration.Machine.Dispatch.{dispatch, apply-dispatch}
use velkir.Orchestration.Machine.{
  reconcile_tick, rollout_primary, switch_master, failover_end_for_timeout, failover_in_flight,
  cr_deleted, State, bootstrap, steady, rollout_complete, degraded, degraded_quorum_lost, Event,
  cr_created, quorum_primary_agreed, quorum_reached, old_primary_ready, recovered, GuardCtx, apply,
}

-- The state that the machine moves to.
abbrev pub next : State → Event → GuardCtx → State
next s e c = (apply default_transitions s e c).0

-- The events and observations that bring the machine into the steady state from another one.
abbrev pub StartsSteady : State → Event → GuardCtx → Type 0
StartsSteady s e c =
    ((s ≡ bootstrap)
      × (e ≡ quorum_primary_agreed)
      × (c.quorum_primary_agreed ≡ true)
      × (c.pod0_labeled_primary ≡ true))
    ⊎ (((s ≡ rollout_complete) × (e ≡ old_primary_ready) × (c.old_primary_replica_ready ≡ true))
        ⊎ (((s ≡ degraded)
              × (e ≡ recovered)
              × (c.quorum_ok ≡ true)
              × (c.split_brain ≡ false)
              × (c.rollout_suspended_from_pending ≡ false))
            ⊎ ((s ≡ degraded_quorum_lost)
                × (e ≡ quorum_reached)
                × (c.ckquorum_ok_hysteresis_passed ≡ true)
                × (c.rollout_suspended_from_pending ≡ false))))

dispatch-StartsSteady :
    (s : State) (e : Event) (c : GuardCtx)
    → s ≢ steady
    → ((dispatch s e c).0 ≡ steady) ↔ StartsSteady s e c
unfolding dispatch
dispatch-StartsSteady bootstrap cr_created c h = (ground arith, ground arith)
dispatch-StartsSteady _ _ c h = (ground arith, ground arith)

-- The machine moves into the steady state from another one exactly when it bootstraps with pod 0
-- labelled as the agreed primary, when the old primary of a completed rollout is a ready replica, or
-- when a degraded state ends with quorum and no rollout to resume.
pub next-StartsSteady :
    (s : State) (e : Event) (c : GuardCtx) → s ≢ steady → (next s e c ≡ steady) ↔ StartsSteady s e c
next-StartsSteady s e c h = rw (apply-dispatch s e c, next) (dispatch-StartsSteady s e c h)

-- The lookups that declare a success while a split brain is suspected.
abbrev pub SucceedsSplit : State → Event → GuardCtx → Type 0
SucceedsSplit s e c =
    ((s ≡ bootstrap)
      × (e ≡ quorum_primary_agreed)
      × (c.quorum_primary_agreed ≡ true)
      × (c.pod0_labeled_primary ≡ true))
    ⊎ (((s ≡ failover_in_flight) × (e ≡ failover_end_for_timeout))
        ⊎ (((s ≡ rollout_complete) × (e ≡ old_primary_ready) × (c.old_primary_replica_ready ≡ true))
            ⊎ ((s ≡ degraded_quorum_lost)
                × (e ≡ quorum_reached)
                × (c.ckquorum_ok_hysteresis_passed ≡ true)
                × (c.rollout_suspended_from_pending ≡ false))))

-- A move from another state into `steady` or `rollout_complete`.
abbrev pub DeclaresSuccess : State → State → Type 0
DeclaresSuccess s t = (s ≢ t) × ((t ≡ steady) ⊎ (t ≡ rollout_complete))

dispatch-SucceedsSplit :
    (s : State) (e : Event) (c : GuardCtx)
    → c.split_brain ≡ true
    → DeclaresSuccess s (dispatch s e c).0 ↔ SucceedsSplit s e c
unfolding dispatch
dispatch-SucceedsSplit bootstrap cr_created c h = (ground arith, ground arith)
dispatch-SucceedsSplit _ _ c h = (ground arith, ground arith)

-- While a split brain is suspected, the machine declares a success (moves from another state into
-- `steady` or `rollout_complete`) exactly in four cases, none of which reads the suspicion: the
-- bootstrap agreement, a failover that ended for its timeout, the ready old primary, and the end of a
-- sustained loss of quorum.
pub success_under_split_brain :
    (s : State) (e : Event) (c : GuardCtx)
    → c.split_brain ≡ true
    → DeclaresSuccess s (next s e c) ↔ SucceedsSplit s e c
success_under_split_brain s e c h = rw (apply-dispatch s e c, next) (dispatch-SucceedsSplit s e c h)

dispatch-initiated :
    (s : State) (e : Event) (c : GuardCtx)
    → (((dispatch s e c).0 ≡ failover_in_flight) × (s ≢ failover_in_flight)) ↔ (
        ((s ≡ steady) × (e ≡ switch_master))
        ⊎ ((s ≡ rollout_primary)
            × (e ≡ reconcile_tick)
            × (c.quorum_ok ≡ true)
            × (c.candidate_replica_ready ≡ true)))
unfolding dispatch
dispatch-initiated bootstrap cr_created c = (ground arith, ground arith)
dispatch-initiated _ _ c = (ground arith, ground arith)

-- A failover is in flight, where none was, exactly when sentinel switched the master of a steady
-- resource, or the operator hands over a primary with quorum and a ready candidate.
pub next-failover_in_flight :
    (s : State) (e : Event) (c : GuardCtx)
    → ((next s e c ≡ failover_in_flight) × (s ≢ failover_in_flight)) ↔ (
        ((s ≡ steady) × (e ≡ switch_master))
        ⊎ ((s ≡ rollout_primary)
            × (e ≡ reconcile_tick)
            × (c.quorum_ok ≡ true)
            × (c.candidate_replica_ready ≡ true)))
next-failover_in_flight s e c = rw (apply-dispatch s e c, next) (dispatch-initiated s e c)

dispatch_leaves_quorum_lost :
    (e : Event) (c : GuardCtx)
    → ((dispatch degraded_quorum_lost e c).0 ≢ degraded_quorum_lost)
      ↔ ((e ≡ cr_deleted) ⊎ ((e ≡ quorum_reached) × (c.ckquorum_ok_hysteresis_passed ≡ true)))
unfolding dispatch
dispatch_leaves_quorum_lost cr_created c = (ground arith, ground arith)
dispatch_leaves_quorum_lost _ c = (ground arith, ground arith)

-- The observation-only state is left exactly by the deletion of the resource, and by a recovered
-- quorum after the hysteresis.
pub leaves_quorum_lost :
    (e : Event) (c : GuardCtx)
    → (next degraded_quorum_lost e c ≢ degraded_quorum_lost)
      ↔ ((e ≡ cr_deleted) ⊎ ((e ≡ quorum_reached) × (c.ckquorum_ok_hysteresis_passed ≡ true)))
leaves_quorum_lost e c =
    rw (apply-dispatch degraded_quorum_lost e c, next) (dispatch_leaves_quorum_lost e c)
