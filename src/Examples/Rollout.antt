-- ===== src/Examples/Rollout.antt =====
-- internal/orchestration, the state machine and the watchdog: runs from concrete states.
use velkir.Prelude.{refl, inl, inr, true, false, List, [], ◌∷◌}
use velkir.Orchestration.Machine.{failover_in_flight, Event, GuardCtx}
use velkir.Orchestration.Machine.Safety.{next, DeclaresSuccess, success_under_split_brain}

-- Everything in order, and the same with a suspected split brain and no quorum.
abbrev settled : GuardCtx
settled = record {
  quorum_ok = true;
  split_brain = false;
  quorum_primary_agreed = true;
  pod0_labeled_primary = true;
  candidate_replica_ready = true;
  has_more_replicas = true;
  new_primary_stable = true;
  old_primary_now_replica = true;
  old_primary_replica_ready = true;
  rollout_suspended_from_pending = false;
  ckquorum_ok_hysteresis_passed = true;
}

abbrev split : GuardCtx
split = record settled { split_brain = true; quorum_ok = false }

success_under_split_brain_example :
    DeclaresSuccess failover_in_flight
      (next failover_in_flight Event.failover_end_for_timeout split)
success_under_split_brain_example =
    (success_under_split_brain failover_in_flight Event.failover_end_for_timeout split refl).1
      (inr (inl (refl, refl)))

abbrev rollout : List (Event × GuardCtx)
rollout =
    (Event.rollout_trigger, settled)
    ∷ (Event.reconcile_tick, settled)
    ∷ (Event.all_replicas_rolled, settled)
    ∷ (Event.reconcile_tick, settled)
    ∷ (Event.failover_end, settled)
    ∷ []
