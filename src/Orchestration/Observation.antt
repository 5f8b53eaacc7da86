-- ===== src/Orchestration/Observation.antt =====
-- internal/orchestration/status.go, the data: conditions, their types and reasons, and the
-- observation that every evaluator reads. Pointers that may be nil are `Option`; int32 and int64
-- values are ℤ. Of the resource only the fields that the evaluators read are kept, and of a
-- condition all but `LastTransitionTime`, which the evaluators leave to the caller.
use velkir.Prelude.{ℕ, ◌+◌, Bool, List, Option, String}
use velkir.Prelude.Int.{ℤ}
use velkir.Prelude.Time.{Time}
use velkir.SqAggregate
use velkir.Orchestration.Watchdog

pub data Mode : Type 0 where
  standalone replication sentinel : Mode

pub data ConditionStatus : Type 0 where
  holds fails unclear : ConditionStatus

-- The condition types of this package, and any other that the resource may carry.
pub data ConditionType : Type 0 where
  ready available progressing reconciled degraded replication_healthy : ConditionType
  bootstrap_complete primary_confirmed quorum_lost sentinel_topology_reconciled : ConditionType
  foreign_type : ℕ → ConditionType

abbrev pub type_code : ConditionType → ℕ
type_code ready = 0
type_code available = 1
type_code progressing = 2
type_code reconciled = 3
type_code degraded = 4
type_code replication_healthy = 5
type_code bootstrap_complete = 6
type_code primary_confirmed = 7
type_code quorum_lost = 8
type_code sentinel_topology_reconciled = 9
type_code (foreign_type n) = n + 10

pub data Reason : Type 0 where
  as_expected not_applicable progressing available ready reconciled replica_wait : Reason
  no_sts reconcile_err rollout_stalled ha_not_met split_brain no_master_agreement : Reason
  master_lost dual_master_divergence sentinel_peer_linkup_stuck : Reason
  bootstrap_not_configured bootstrap_replicating : Reason
  primary_confirmed no_primary_majority no_fresh_observation quorum_ok quorum_lost : Reason
  sentinel_topology_in_sync sentinel_topology_mismatch : Reason
  other_reason : String → Reason

-- A message is a format with its arguments; it is not rendered.
pub data Arg : Type 0 where
  num : ℤ → Arg
  text : String → Arg
  quoted : String → Arg
  instant : Time → Arg

pub record Message : Type 0 where
  pub format : String
  pub args : List Arg

pub record Condition : Type 0 where
  pub kind : ConditionType
  pub status : ConditionStatus
  pub reason : Reason
  pub message : Message
  pub observed_generation : ℤ

pub data Phase : Type 0 where
  pending progressing available ready degraded paused : Phase

-- The Valkey resource: mode, spec.valkey.replicas, whether spec.bootstrapNode is set, the
-- generation, and the conditions of the prior status.
pub record Valkey : Type 0 where
  pub mode : Mode
  pub replicas : ℤ
  pub has_bootstrap_node : Bool
  pub generation : ℤ
  pub conditions : List Condition

-- The StatefulSet: spec.replicas and status.readyReplicas.
pub record StatefulSet : Type 0 where
  pub replicas : Option ℤ
  pub ready_replicas : ℤ

pub record ReplicationObservation : Type 0 where
  pub gate_enabled : Bool
  pub ready_replicas : ℤ

pub record Observation : Type 0 where
  pub cr : Option Valkey
  pub sts : Option StatefulSet
  -- Whether the reconcile returned an error; the evaluators do not read which one.
  pub reconcile_error : Bool
  pub is_paused : Bool
  pub rollout_watchdog : Watchdog.Verdict
  pub sentinel_quorum : SqAggregate.Result
  pub split_brain_active : Bool
  pub no_master_agreement_active : Bool
  pub master_lost_active : Bool
  pub dual_master_active : Bool
  pub sentinel_peer_linkup_stuck_active : Bool
  pub quorum_suppression_active : Bool
  pub replication : ReplicationObservation
  pub sentinel_topology_mismatch_active : Bool
  pub sentinel_topology_sentinel_deficit : ℤ
  pub sentinel_topology_replica_deficit : ℤ
