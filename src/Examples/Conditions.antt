-- ===== src/Examples/Conditions.antt =====
-- internal/orchestration, the status: evaluations of concrete observations.
use velkir.Prelude.{arith, ◌≡◌, refl, true, false, [], some}
use velkir.Prelude.Int.{pos}
use velkir.Sentinel.Types.{QuorumStatus}
use velkir.Orchestration.Observation.{Mode, Phase, Valkey, Observation}
use velkir.Orchestration.Watchdog
use velkir.Orchestration.Degraded.{is_sub_ha_sentinel}
use velkir.Orchestration.Status.{evaluate}
use velkir.Orchestration.Status.PhaseLaws.{IsSound, phase-ready}

-- A resource of three replicas in sentinel mode that is up and healthy.
abbrev healthy_cr : Valkey
healthy_cr = record {
  mode = Mode.sentinel;
  replicas = pos 3;
  has_bootstrap_node = true;
  generation = pos 2;
  conditions = [];
}

abbrev healthy : Observation
healthy = record {
  cr = some healthy_cr;
  sts = some (record { replicas = some (pos 3); ready_replicas = pos 3 });
  reconcile_error = false;
  is_paused = false;
  rollout_watchdog = Watchdog.inactive;
  sentinel_quorum = record {
    primary_pod = "valkey-0";
    primary_confirmed = true;
    quorum_lost = false;
    quorum = QuorumStatus.reachable;
    fresh_count = 3;
    stale_count = 0;
  };
  split_brain_active = false;
  no_master_agreement_active = false;
  master_lost_active = false;
  dual_master_active = false;
  sentinel_peer_linkup_stuck_active = false;
  quorum_suppression_active = false;
  replication = record { gate_enabled = true; ready_replicas = pos 2 };
  sentinel_topology_mismatch_active = false;
  sentinel_topology_sentinel_deficit = pos 0;
  sentinel_topology_replica_deficit = pos 0;
}

-- The same with the suppression gate active.
abbrev suppressed : Observation
suppressed = record healthy { quorum_suppression_active = true }

healthy-IsSound : IsSound healthy
unfolding is_sub_ha_sentinel
healthy-IsSound = record {
  no_stall = refl;
  no_error = refl;
  one_master = refl;
  linked = refl;
  has_quorum = refl;
  master_agreed = refl;
  no_split = refl;
  enough_replicas = refl;
}

phase-ready_example : (evaluate healthy).1 ≡ Phase.ready
phase-ready_example =
    (phase-ready healthy).1 (refl, healthy-IsSound, refl, (omega arith, omega arith))
