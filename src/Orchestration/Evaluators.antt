-- ===== src/Orchestration/Evaluators.antt =====
-- internal/orchestration: the evaluators of ready.go, available.go, progressing.go, reconciled.go,
-- replication_healthy.go, bootstrap_complete.go, primary_confirmed.go, quorum_lost.go and
-- sentinel_topology.go, one condition each.
use velkir.Prelude.{
  Bool, true, false, ◌&&◌, not, List, [], ◌∷◌, ◌++◌, Option, none, some, String, ◌==◌,
  if◌then◌else◌,
}
use Prim.Native.String.{◌++◌ as text_append}
use velkir.Prelude.Int.{ℤ, pos, ◌-ℤ◌, ltb_ℤ, leb_ℤ, eq_ℤ}
use velkir.Sentinel.Types.{QuorumStatus}
use velkir.Orchestration.Observation.{
  Mode, ConditionStatus, ConditionType, Reason, Arg, Message, Condition, Valkey, StatefulSet,
  Observation, type_code, holds, fails, unclear,
}

abbrev pub plain : String → Message
plain s = record { format = s; args = [] }

abbrev pub condition : ConditionType → ConditionStatus → Reason → Message → Condition
condition k st r m = record {
  kind = k;
  status = st;
  reason = r;
  message = m;
  observed_generation = pos 0;
}

-- `*sts.Spec.Replicas`, or 0 for a nil pointer.
abbrev pub desired_replicas : StatefulSet → ℤ
desired_replicas sts = elim sts.replicas [ none ↦ pos 0 | some n ↦ n ]

unfoldable pub ready_of_sts : Option StatefulSet → Condition
ready_of_sts none =
    condition ConditionType.ready fails Reason.no_sts (plain "StatefulSet not yet created")
ready_of_sts (some sts) =
    if leb_ℤ (desired_replicas sts) sts.ready_replicas && ltb_ℤ (pos 0) (desired_replicas sts)
    then condition ConditionType.ready holds Reason.ready (plain "all desired replicas are Ready")
    else condition ConditionType.ready fails Reason.replica_wait
        (plain "waiting for replicas to become Ready")

unfoldable pub eval_ready : Observation → Condition
eval_ready o =
    if o.dual_master_active
    then condition ConditionType.ready fails Reason.dual_master_divergence
        (plain "two or more valkey pods self-report role:master; writes are split across primaries")
    else if o.no_master_agreement_active
    then condition ConditionType.ready fails Reason.no_master_agreement
        (plain "sentinel observer reports a primary address that matches no current valkey pod")
    else if o.master_lost_active
    then condition ConditionType.ready fails Reason.master_lost (
        plain
          "pod labelled role=primary is not responding to INFO; awaiting Sentinel-driven promotion of a replacement primary")
    else ready_of_sts o.sts

available_of_sts : Option StatefulSet → Condition
available_of_sts none =
    condition ConditionType.available fails Reason.no_sts (plain "StatefulSet not yet created")
available_of_sts (some sts) =
    if leb_ℤ (pos 1) sts.ready_replicas
    then condition ConditionType.available holds Reason.available
        (plain "at least one replica is Ready")
    else condition ConditionType.available fails Reason.replica_wait
        (plain "no replicas are Ready yet")

unfoldable pub eval_available : Observation → Condition
unfolding available_of_sts
eval_available o = available_of_sts o.sts

progressing_of_sts : Option StatefulSet → Condition
progressing_of_sts none =
    condition ConditionType.progressing holds Reason.no_sts (plain "creating StatefulSet")
progressing_of_sts (some sts) =
    if ltb_ℤ sts.ready_replicas (desired_replicas sts)
    then condition ConditionType.progressing holds Reason.progressing
        (plain "waiting for replicas to become Ready")
    else condition ConditionType.progressing fails Reason.as_expected
        (plain "no rollout in progress")

unfoldable pub eval_progressing : Observation → Condition
unfolding progressing_of_sts
eval_progressing o = progressing_of_sts o.sts

unfoldable pub eval_reconciled : Observation → Condition
eval_reconciled o =
    if o.reconcile_error
    then condition ConditionType.reconciled fails Reason.reconcile_err
        (plain "reconcile returned an error; see the operator log")
    else condition ConditionType.reconciled holds Reason.reconciled
        (plain "reconcile pass completed without error")

abbrev pub is_standalone : Mode → Bool
is_standalone Mode.standalone = true
is_standalone _ = false

abbrev pub is_sentinel : Mode → Bool
is_sentinel Mode.sentinel = true
is_sentinel _ = false

-- `cr != nil && cr.Spec.Mode == ...`.
abbrev pub in_mode : (Mode → Bool) → Option Valkey → Bool
in_mode p none = false
in_mode p (some cr) = p cr.mode

unfoldable pub expected_replica_peers : Option Valkey → ℤ
expected_replica_peers none = pos 0
expected_replica_peers (some cr) =
    if ltb_ℤ (pos 0) (cr.replicas -ℤ pos 1) then cr.replicas -ℤ pos 1 else pos 0

unfoldable pub eval_replication_healthy : Observation → Condition
eval_replication_healthy o =
    let expected = expected_replica_peers o.cr in
    if in_mode is_standalone o.cr
    then condition ConditionType.replication_healthy holds Reason.not_applicable
        (plain "standalone mode has no replication peer to track")
    else if not o.replication.gate_enabled
    then condition ConditionType.replication_healthy holds Reason.not_applicable (
        plain
          "replication-lag readiness gate disabled (spec.valkey.readinessGate.enabled=false); replication health not tracked")
    else if eq_ℤ expected (pos 0)
    then condition ConditionType.replication_healthy holds Reason.not_applicable
        (plain "no replica peers configured (spec.valkey.replicas=1)")
    else if leb_ℤ expected o.replication.ready_replicas
    then condition ConditionType.replication_healthy holds Reason.as_expected (record {
      format = "all %d replica(s) replication-ready (master_link up, lag within budget)";
      args = Arg.num expected ∷ [];
    })
    else condition ConditionType.replication_healthy fails Reason.replica_wait (record {
      format = "%d/%d replica(s) replication-ready";
      args = Arg.num o.replication.ready_replicas ∷ Arg.num expected ∷ [];
    })

-- The first condition of the type, or nil: `findCondition`, and the loop of `findPriorCondition`.
unfoldable pub find_condition : List Condition → ConditionType → Option Condition
find_condition [] t = none
find_condition (c ∷ cs) t = if type_code c.kind == type_code t then some c else find_condition cs t

unfoldable pub find_prior_condition : Observation → ConditionType → Option Condition
find_prior_condition o t = elim o.cr [ none ↦ none | some cr ↦ find_condition cr.conditions t ]

abbrev pub is_true : ConditionStatus → Bool
is_true holds = true
is_true _ = false

abbrev pub is_false : ConditionStatus → Bool
is_false fails = true
is_false _ = false

abbrev pub true_condition : Option Condition → Bool
true_condition none = false
true_condition (some c) = is_true c.status

bootstrap_anew : Option Valkey → Condition
bootstrap_anew none =
    condition ConditionType.bootstrap_complete holds Reason.bootstrap_not_configured
      (plain "bootstrap not configured; CR starts self-sufficient")
bootstrap_anew (some cr) =
    if not cr.has_bootstrap_node
    then condition ConditionType.bootstrap_complete holds Reason.bootstrap_not_configured
        (plain "bootstrap not configured; CR starts self-sufficient")
    else condition ConditionType.bootstrap_complete fails Reason.bootstrap_replicating
        (plain "awaiting bootstrap import")

-- The latch: a prior condition that is true is kept, with its reason and message.
bootstrap_latch : Option Condition → Option Valkey → Condition
unfolding bootstrap_anew
bootstrap_latch none cr = bootstrap_anew cr
bootstrap_latch (some prior) cr =
    if is_true prior.status
    then condition ConditionType.bootstrap_complete holds prior.reason prior.message
    else bootstrap_anew cr

unfoldable pub eval_bootstrap_complete : Observation → Condition
unfolding bootstrap_latch
eval_bootstrap_complete o =
    bootstrap_latch (find_prior_condition o ConditionType.bootstrap_complete) o.cr

unfoldable pub eval_primary_confirmed : Observation → Condition
eval_primary_confirmed o =
    let sq = o.sentinel_quorum in
    if not (in_mode is_sentinel o.cr)
    then condition ConditionType.primary_confirmed holds Reason.not_applicable
        (plain "PrimaryConfirmed is not applicable outside sentinel mode")
    else if sq.primary_confirmed
    then condition ConditionType.primary_confirmed holds Reason.primary_confirmed (record {
      format = "strict majority of %d fresh sentinel record(s) agree on primary %q";
      args = Arg.num (pos sq.fresh_count) ∷ Arg.quoted sq.primary_pod ∷ [];
    })
    else if sq.fresh_count == 0
    then condition ConditionType.primary_confirmed unclear Reason.no_fresh_observation
        (plain "no fresh SentinelQuorum records observed")
    else condition ConditionType.primary_confirmed fails Reason.no_primary_majority (record {
      format = "no strict majority on primary across %d fresh sentinel record(s)";
      args = Arg.num (pos sq.fresh_count) ∷ [];
    })

abbrev is_unknown : QuorumStatus → Bool
is_unknown QuorumStatus.unknown = true
is_unknown _ = false

unfoldable pub eval_quorum_lost : Observation → Condition
eval_quorum_lost o =
    if not (in_mode is_sentinel o.cr)
    then condition ConditionType.quorum_lost fails Reason.not_applicable
        (plain "QuorumLost is not applicable outside sentinel mode")
    else if o.quorum_suppression_active
    then condition ConditionType.quorum_lost holds Reason.quorum_lost (
        plain
          "sentinel quorum suppression gate active (sustained NOQUORUM past the configured threshold, awaiting recovery polls)")
    else if is_unknown o.sentinel_quorum.quorum
    then condition ConditionType.quorum_lost unclear Reason.no_fresh_observation
        (plain "no fresh SentinelQuorum records observed")
    else condition ConditionType.quorum_lost fails Reason.quorum_ok
        (plain "sentinel quorum suppression gate inactive")

-- `strings.Join(parts, "; ")` of at most two parts, as formats with their arguments.
abbrev join_parts : List Message → List Message → Message
join_parts [] [] = plain ""
join_parts [] (n ∷ ns) = n
join_parts (m ∷ ms) [] = m
join_parts (m ∷ ms) (n ∷ ns) = record {
  format = text_append m.format (text_append "; " n.format);
  args = m.args ++ n.args;
}

unfoldable pub sentinel_topology_detail : ℤ → ℤ → Message
sentinel_topology_detail sentinel_deficit replica_deficit =
    join_parts
      (if ltb_ℤ (pos 0) sentinel_deficit
        then record {
          format = "sentinels short by %d (peer-gossip gap)";
          args = Arg.num sentinel_deficit ∷ [];
        }
          ∷ []
        else [])
      (if ltb_ℤ (pos 0) replica_deficit
        then record { format = "replicas short by %d"; args = Arg.num replica_deficit ∷ [] } ∷ []
        else [])

unfoldable pub eval_sentinel_topology : Observation → Condition
eval_sentinel_topology o =
    if not (in_mode is_sentinel o.cr)
    then condition ConditionType.sentinel_topology_reconciled holds Reason.not_applicable
        (plain "sentinel topology reconciliation is not applicable outside sentinel mode")
    else if not o.sentinel_topology_mismatch_active
    then condition ConditionType.sentinel_topology_reconciled holds Reason.sentinel_topology_in_sync
        (plain "sentinel-known peer and replica counts match spec")
    else condition ConditionType.sentinel_topology_reconciled fails
        Reason.sentinel_topology_mismatch
        (let detail =
            sentinel_topology_detail o.sentinel_topology_sentinel_deficit
              o.sentinel_topology_replica_deficit in
          record {
            format = text_append "sentinel topology below spec: " detail.format;
            args = detail.args;
          })
