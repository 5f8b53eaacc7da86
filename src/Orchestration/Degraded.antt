-- ===== src/Orchestration/Degraded.antt =====
-- internal/orchestration/degraded.go: the Degraded condition and its falling edge.
use velkir.Prelude.{Bool, false, ◌&&◌, List, [], ◌∷◌, Option, none, some, if◌then◌else◌}
use velkir.Prelude.Int.{ℤ, pos, ltb_ℤ}
use velkir.Orchestration.Observation.{
  ConditionType, Reason, Arg, Condition, Valkey, Observation, holds, fails,
}
use velkir.Orchestration.Evaluators.{
  plain, condition, in_mode, is_sentinel, is_true, is_false, find_condition,
}

unfoldable pub is_sub_ha_sentinel : Option Valkey → Bool
is_sub_ha_sentinel none = false
is_sub_ha_sentinel (some cr) = is_sentinel cr.mode && ltb_ℤ cr.replicas (pos 2)

abbrev cr_replicas : Option Valkey → ℤ
cr_replicas none = pos 0
cr_replicas (some cr) = cr.replicas

unfoldable pub eval_degraded : Observation → Condition
eval_degraded o =
    if o.rollout_watchdog.active && o.rollout_watchdog.expired
    then condition ConditionType.degraded holds Reason.rollout_stalled (record {
      format = "replica-readiness watchdog expired waiting for pod %q (deadline %s)";
      args = Arg.quoted o.rollout_watchdog.pod_name ∷ Arg.instant o.rollout_watchdog.deadline ∷ [];
    })
    else if o.reconcile_error
    then condition ConditionType.degraded holds Reason.reconcile_err
        (plain "reconcile returned an error")
    else if o.dual_master_active
    then condition ConditionType.degraded holds Reason.dual_master_divergence (
        plain
          "two or more valkey pods self-report role:master; writes are landing on more than one primary and the diverging writes will be discarded when the split resolves")
    else if o.sentinel_peer_linkup_stuck_active
    then condition ConditionType.degraded holds Reason.sentinel_peer_linkup_stuck (
        plain
          "a rebuilt sentinel still reports an empty peer-list after repeated REMOVE + MONITOR surgeries; gossip cannot rebuild (auth or NetworkPolicy). Operator surgery is backing off — manual intervention likely required")
    else if o.quorum_suppression_active && in_mode is_sentinel o.cr
    then condition ConditionType.degraded holds Reason.quorum_lost (
        plain
          "sentinel quorum suppression gate active: fewer than `spec.sentinel.quorum` sentinels reachable past the loss threshold; all sentinel commands suspended until quorum recovers")
    else if o.no_master_agreement_active
    then condition ConditionType.degraded holds Reason.no_master_agreement (
        plain
          "sentinel observer reports a primary address that matches no current valkey pod; writes via the `<cr>` Service would land on a non-primary")
    else if o.split_brain_active
    then condition ConditionType.degraded holds Reason.split_brain (
        plain
          "sentinel observer reports quorum lost: fewer than `spec.sentinel.quorum` sentinels agree on the primary; role-label writes suppressed until quorum recovers")
    else if is_sub_ha_sentinel o.cr
    then condition ConditionType.degraded holds Reason.ha_not_met (record {
      format =
          "mode=sentinel with spec.valkey.replicas=%d is sub-HA: at least 2 valkey replicas are required for sentinel to perform a failover";
      args = Arg.num (cr_replicas o.cr) ∷ [];
    })
    else condition ConditionType.degraded fails Reason.as_expected (plain "no degradation observed")

-- Whether Degraded just turned from true to false.
unfoldable pub degraded_flipped_false : List Condition → List Condition → Bool
degraded_flipped_false prior current = elim (find_condition prior ConditionType.degraded) [
  | none ↦ false
  | some before ↦ is_true before.status && elim (find_condition current ConditionType.degraded) [
    | none ↦ false
    | some now ↦ is_false now.status
  ]
]
