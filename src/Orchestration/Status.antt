-- ===== src/Orchestration/Status.antt =====
-- internal/orchestration/status.go, `Evaluate`, and phase.go: the list of conditions and the phase
-- that is read off it.
pub mod Laws
pub mod PhaseLaws
pub mod Latch
use velkir.Prelude.{◌&&◌, List, [], ◌∷◌, Option, none, some, map, ◌==◌, if◌then◌else◌}
use velkir.Prelude.Int.{ℤ}
use velkir.Orchestration.Observation.{
  ConditionStatus, ConditionType, Condition, Phase, StatefulSet, Valkey, Observation, type_code,
  unclear,
}
use velkir.Orchestration.Evaluators.{
  eval_ready, eval_available, eval_progressing, eval_reconciled, eval_replication_healthy,
  eval_bootstrap_complete, eval_primary_confirmed, eval_quorum_lost, eval_sentinel_topology,
  is_true, is_false,
}
use velkir.Orchestration.Degraded.{eval_degraded}

unfoldable pub status_of : List Condition → ConditionType → ConditionStatus
status_of [] t = unclear
status_of (c ∷ cs) t = if type_code c.kind == type_code t then c.status else status_of cs t

phase_of_sts : List Condition → Option StatefulSet → Phase
phase_of_sts conds none = Phase.pending
phase_of_sts conds (some sts) =
    if is_true (status_of conds ConditionType.ready)
    then Phase.ready
    else if is_true (status_of conds ConditionType.available)
        && is_true (status_of conds ConditionType.progressing)
    then Phase.progressing
    else if is_true (status_of conds ConditionType.available)
    then Phase.available
    else Phase.progressing

unfoldable pub derive_phase : List Condition → Observation → Phase
unfolding phase_of_sts
derive_phase conds o =
    if o.is_paused
    then Phase.paused
    else if is_true (status_of conds ConditionType.degraded)
    then Phase.degraded
    else if is_false (status_of conds ConditionType.reconciled)
    then Phase.degraded
    else if is_true (status_of conds ConditionType.quorum_lost)
    then Phase.degraded
    else phase_of_sts conds o.sts

-- The evaluators in the order of `Evaluate`.
unfoldable pub evaluated : Observation → List Condition
evaluated o =
    eval_ready o
    ∷ eval_available o
    ∷ eval_progressing o
    ∷ eval_reconciled o
    ∷ eval_degraded o
    ∷ eval_replication_healthy o
    ∷ eval_bootstrap_complete o
    ∷ eval_primary_confirmed o
    ∷ eval_quorum_lost o
    ∷ eval_sentinel_topology o
    ∷ []

abbrev pub stamp_generation : ℤ → Condition → Condition
stamp_generation g c = record c { observed_generation = g }

-- The loop that stamps the generation of the resource, if there is one.
unfoldable pub stamped : Option Valkey → List Condition → List Condition
stamped none conds = conds
stamped (some cr) conds = map (stamp_generation cr.generation) conds

unfoldable pub evaluate : Observation → List Condition × Phase
evaluate o = let conds = stamped o.cr (evaluated o) in (conds, derive_phase conds o)
