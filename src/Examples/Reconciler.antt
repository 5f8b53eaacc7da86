-- ===== src/Examples/Reconciler.antt =====
-- internal/controller: the decisions of concrete passes.
use velkir.Prelude.{◌≡◌, refl, Bool, true, false, List, [], ◌∷◌, Option, none, some, String}
use velkir.Prelude.Int.{pos, ◌-ℤ◌}
use velkir.Sentinel.Types.{QuorumStatus, Source, Snapshot}
use velkir.Orchestration.Machine.{
  State, steady, rollout_primary, rollout_replicas, degraded, exited,
}
use velkir.Orchestration.Machine.Table.{default_transitions}
use velkir.Controller.Pods.{
  condition_healthy, pod_replication_healthy, condition_ready, pod_ready, Pod, PodCondition,
  pod_ready_type,
}
use velkir.Controller.Latch.{failover_latch_active}
use velkir.Controller.DeriveState.{
  is_settled, at_target, snapshot_quorum, seen_by, Resource, derive_state,
}
use velkir.Controller.DeriveState.Handoff.{derive-hand_off}
use velkir.Controller.DeriveState.Loop.{last_primary}
use velkir.Controller.Dispatch.{LagState, World, FailoverReply, Pass}
use velkir.Controller.Fsm
use velkir.Controller.Fsm.Suspension.{all_edge_reasons, dispatch_all-edge_reasons}

abbrev ready : List PodCondition
ready = record { kind = pod_ready_type; is_true = true } ∷ []

abbrev pod : String → Bool → String → Pod
pod name primary revision = record {
  name = name;
  is_primary = primary;
  revision = revision;
  ip = "10.0.0.9";
  terminating = false;
  conditions = ready;
}

-- The replica is at the new revision, and the primary is not.
abbrev half_rolled : List Pod
half_rolled = pod "valkey-0" true "a" ∷ pod "valkey-1" false "b" ∷ []

abbrev agreed : Snapshot
agreed = record {
  present = true;
  primary = record {
    addr = "10.0.0.1:6379";
    epoch = pos 3;
    quorum = QuorumStatus.reachable;
    quorum_ok = true;
    updated_at = pos 100;
    last_polled_at = pos 100;
    source = Source.poll;
    odown = [];
    odown_pull = [];
  };
}

abbrev pair : Resource
pair = record { is_standalone = false; replicas = pos 2 }

derive-hand_off_example :
    (derive_state (pos 110) pair (some agreed) none half_rolled (some "b")).0.0 ≡ rollout_primary
unfolding seen_by snapshot_quorum failover_latch_active last_primary at_target is_settled pod_ready
    condition_ready pod_replication_healthy condition_healthy ◌-ℤ◌
derive-hand_off_example =
    (derive-hand_off (pos 110) pair (some agreed) none half_rolled "b").1
      (refl, refl, refl, (pod "valkey-0" true "a", refl, refl), (refl, refl, refl))

abbrev settled_lag : Pod → Option LagState
settled_lag p = some (record { is_master = false; link_up = true; lag_bytes = pos 20 })

-- A pass that hands the primary over, with every call succeeding.
abbrev handing : Pass
handing = record {
  state = rollout_primary;
  observer = some agreed;
  now = pos 110;
  latch_now = pos 111;
  dispatch_now = pos 112;
  cooldown_now = pos 113;
  listed = some half_rolled;
  check_lag = settled_lag;
  spec_max_lag = pos 10_000;
  calls = record {
    persisted = true;
    stripped = true;
    reply = FailoverReply.accepted;
    restored = true;
    cleared = true;
  };
}

abbrev before_it : World
before_it = record { marker = none; latch = none; labelled = true; in_flight = false }

abbrev candidate : Pod
candidate = pod "valkey-1" false "b"

abbrev patched : Fsm.Patches
patched = record { stamp = true; recovery = true; hygiene = true }

abbrev seen : State → Bool → Fsm.Observed
seen s q = record { state = s; quorum_ok = q; patches = patched }

abbrev life : List Fsm.Observed
life =
    seen rollout_replicas true ∷ seen degraded false ∷ seen degraded false ∷ seen steady true ∷ []

abbrev born : Fsm.Kept
born = record { last_state = exited; stored = none }

dispatch_all-edge_reasons_example :
    ((Fsm.dispatch_all (some default_transitions) life born).0 ≡ all_edge_reasons exited life)
    × (Fsm.suspended_code (Fsm.dispatch_all (some default_transitions) life born).1.stored ≡ false)
dispatch_all-edge_reasons_example =
    dispatch_all-edge_reasons life born (λ e. cc, (λ e. cc, (λ e. cc, (λ e. cc, tt)))) (λ e. cc)
      refl
