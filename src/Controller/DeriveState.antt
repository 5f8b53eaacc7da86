-- ===== src/Controller/DeriveState.antt =====
-- internal/controller/derive_state.go: the state of the rollout that a pass observes.
pub mod Loop
pub mod Handoff
pub mod Observed
use velkir.Prelude.{
  ℕ, ◌+◌, Bool, true, false, not, ◌&&◌, ◌||◌, List, [], ◌∷◌, Option, none, some, String, str_eq,
  length, ◌==◌, if◌then◌else◌,
}
use velkir.Prelude.Int.{ℤ, pos, ◌-ℤ◌, eq_ℤ, max_ℤ}
use velkir.Prelude.Time.{Time}
use velkir.Sentinel.Types.{Snapshot}
use velkir.Orchestration.Machine.{
  State, bootstrap, steady, degraded, failover_in_flight, rollout_replicas, rollout_primary,
}
use velkir.Controller.Pods.{Pod, pod_ready, pod_replication_healthy}
use velkir.Controller.Latch.{FailoverLatch, observed_addr_epoch, failover_latch_active}

pub record ObservedFacts : Type 0 where
  pub is_standalone : Bool
  pub pod_count : ℕ
  pub quorum_ok : Bool
  pub failover_in_flight : Bool
  pub primary_at_target_revision : Bool
  pub all_replicas_at_target_revision : Bool
  pub all_pods_at_target_revision : Bool
  pub replicas_ready_for_handoff : Bool

unfoldable pub derive_state_from_facts : ObservedFacts → State
derive_state_from_facts f =
    if f.pod_count == 0
    then bootstrap
    else if f.is_standalone
    then steady
    else if not f.quorum_ok
    then degraded
    else if f.failover_in_flight
    then failover_in_flight
    else if f.all_pods_at_target_revision
    then steady
    else if f.all_replicas_at_target_revision && not f.primary_at_target_revision
    then (if not f.replicas_ready_for_handoff then rollout_replicas else rollout_primary)
    else rollout_replicas

-- The locals of the loop over the pods.
pub record Survey : Type 0 where
  pub primary_seen : Bool
  pub primary_at_target : Bool
  pub replicas_at_target : Bool
  pub any_replica_seen : Bool
  pub replica_count : ℕ
  pub replicas_settled : Bool

abbrev pub empty_survey : Survey
empty_survey = record {
  primary_seen = false;
  primary_at_target = false;
  replicas_at_target = true;
  any_replica_seen = false;
  replica_count = 0;
  replicas_settled = true;
}

unfoldable pub at_target : String → Pod → Bool
at_target target p = not (str_eq target "") && str_eq p.revision target

unfoldable pub is_settled : Pod → Bool
is_settled p = not (p.terminating || (not (pod_ready p) || not (pod_replication_healthy p)))

unfoldable pub survey_one : String → Survey → Pod → Survey
survey_one target s p =
    if p.is_primary
    then record s { primary_seen = true; primary_at_target = at_target target p }
    else record s {
      any_replica_seen = true;
      replica_count = s.replica_count + 1;
      replicas_at_target = if at_target target p then s.replicas_at_target else false;
      replicas_settled = if is_settled p then s.replicas_settled else false;
    }

unfoldable pub survey : String → Survey → List Pod → Survey
survey target s [] = s
survey target s (p ∷ ps) = survey target (survey_one target s p) ps

-- The resource as far as it is read: whether the mode is standalone, and spec.valkey.replicas.
pub record Resource : Type 0 where
  pub is_standalone : Bool
  pub replicas : ℤ

unfoldable pub snapshot_quorum : Option Snapshot → Bool
snapshot_quorum none = false
snapshot_quorum (some snap) = snap.present && snap.primary.quorum_ok

-- The observer of a standalone resource is not read, and a nil observer is `none`.
unfoldable pub seen_by : Resource → Option Snapshot → Option Snapshot
seen_by v observer = if v.is_standalone then none else observer

-- The facts before the pods are read.
unfoldable pub early_facts : Resource → Option Snapshot → Bool → ObservedFacts
early_facts v observer latched = record {
  is_standalone = v.is_standalone;
  pod_count = 0;
  quorum_ok = snapshot_quorum (seen_by v observer);
  failover_in_flight = latched;
  primary_at_target_revision = false;
  all_replicas_at_target_revision = false;
  all_pods_at_target_revision = false;
  replicas_ready_for_handoff = false;
}

unfoldable pub facts_of : Resource → ObservedFacts → List Pod → Survey → ObservedFacts
facts_of v f pods s =
    let primary_current = s.primary_seen && s.primary_at_target in
    let replicas_current = not s.any_replica_seen || s.replicas_at_target in
    record f {
      pod_count = length pods;
      primary_at_target_revision = primary_current;
      all_replicas_at_target_revision = replicas_current;
      replicas_ready_for_handoff =
          s.replicas_settled && eq_ℤ (pos s.replica_count) (max_ℤ (v.replicas -ℤ pos 1) (pos 0));
      all_pods_at_target_revision = primary_current && replicas_current;
    }

-- The rest of `deriveState` for a StatefulSet with this update revision.
unfoldable pub derive_with_sts :
    Resource → ObservedFacts → List Pod → String → State × ObservedFacts
derive_with_sts v f [] target = (derive_state_from_facts f, f)
derive_with_sts v f (p ∷ ps) target =
    let s = survey target empty_survey (p ∷ ps) in
    let facts = facts_of v f (p ∷ ps) s in
    if not s.primary_seen && s.any_replica_seen
    then (bootstrap, facts)
    else (derive_state_from_facts facts, facts)

unfoldable pub derive_facts :
    Resource → ObservedFacts → List Pod → Option String → State × ObservedFacts
derive_facts v f pods none = (derive_state_from_facts f, f)
derive_facts v f pods (some target) = derive_with_sts v f pods target

-- `deriveState`, with the latch that it leaves: the update revision of a StatefulSet that is not there
-- yet is `none`.
unfoldable pub derive_state :
    Time
    → Resource
    → Option Snapshot
    → Option FailoverLatch
    → List Pod
    → Option String
    → (State × ObservedFacts) × Option FailoverLatch
derive_state now v observer latch pods sts =
    let (latched, left) =
      failover_latch_active latch now (observed_addr_epoch (seen_by v observer)) in
    (derive_facts v (early_facts v observer latched) pods sts, left)
