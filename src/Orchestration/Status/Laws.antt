-- ===== src/Orchestration/Status/Laws.antt =====
-- The conditions that an evaluation reports, read through their types.
use velkir.Prelude.{◌∙◌, ap, ◌≡◌, refl, List, [], ◌∷◌, Option, none, some, map, arith}
use velkir.Orchestration.Observation.{
  ConditionType, Condition, Valkey, Observation, ready, available, progressing, reconciled,
  degraded, replication_healthy, bootstrap_complete, primary_confirmed, quorum_lost,
  sentinel_topology_reconciled,
}
use velkir.Orchestration.Evaluators.{
  ready_of_sts, eval_ready, eval_available, eval_progressing, eval_reconciled,
  eval_replication_healthy, eval_bootstrap_complete, eval_primary_confirmed, eval_quorum_lost,
  eval_sentinel_topology, find_condition,
}
use velkir.Orchestration.Degraded.{eval_degraded}
use velkir.Orchestration.Status.{ℤ, stamp_generation, status_of, evaluated, stamped, evaluate}

abbrev pub kinds : List Condition → List ConditionType
kinds = map (λ c. c.kind)

-- The kinds of the evaluators' conditions, one lemma for each that branches.
module _ (o : Observation) where
  kind-ready : (eval_ready o).kind ≡ ready
  unfolding eval_ready ready_of_sts
  kind-ready = ground arith

  kind-available : (eval_available o).kind ≡ available
  unfolding eval_available
  kind-available = ground arith

  kind-progressing : (eval_progressing o).kind ≡ progressing
  unfolding eval_progressing
  kind-progressing = ground arith

  kind-reconciled : (eval_reconciled o).kind ≡ reconciled
  unfolding eval_reconciled
  kind-reconciled = ground arith

  kind-degraded : (eval_degraded o).kind ≡ degraded
  unfolding eval_degraded
  kind-degraded = ground arith

  kind-replication : (eval_replication_healthy o).kind ≡ replication_healthy
  unfolding eval_replication_healthy
  kind-replication = ground arith

  kind-bootstrap : (eval_bootstrap_complete o).kind ≡ bootstrap_complete
  unfolding eval_bootstrap_complete
  kind-bootstrap = ground arith

  kind-primary : (eval_primary_confirmed o).kind ≡ primary_confirmed
  unfolding eval_primary_confirmed
  kind-primary = ground arith

  kind-quorum : (eval_quorum_lost o).kind ≡ quorum_lost
  unfolding eval_quorum_lost
  kind-quorum = ground arith

  kind-topology : (eval_sentinel_topology o).kind ≡ sentinel_topology_reconciled
  unfolding eval_sentinel_topology
  kind-topology = ground arith

status_of-stamped :
    (cr : Option Valkey) (conds : List Condition) (t : ConditionType)
    → status_of (stamped cr conds) t ≡ status_of conds t
unfolding stamped status_of
status_of-stamped none conds t = refl
status_of-stamped (some cr) [] t = refl
status_of-stamped (some cr) (c ∷ conds) t = ground (arith, status_of-stamped (some cr) conds t)

kinds-stamped :
    (cr : Option Valkey) (conds : List Condition) → kinds (stamped cr conds) ≡ kinds conds
unfolding stamped
kinds-stamped none conds = refl
kinds-stamped (some cr) [] = refl
kinds-stamped (some cr) (c ∷ conds) = ap (◌∷◌ c.kind) (kinds-stamped (some cr) conds)

ruleset all_kinds = (
  kind-ready, kind-available, kind-progressing, kind-reconciled, kind-degraded, kind-replication,
  kind-bootstrap, kind-primary, kind-quorum, kind-topology,
)

-- Every evaluation reports the ten conditions once each, in the fixed order.
pub evaluate-kinds :
    (o : Observation)
    → kinds (evaluate o).0
      ≡ ready ∷ available ∷ progressing ∷ reconciled ∷ degraded ∷ replication_healthy
        ∷ bootstrap_complete ∷ primary_confirmed ∷ quorum_lost ∷ sentinel_topology_reconciled ∷ []
unfolding evaluate evaluated
evaluate-kinds o = kinds-stamped o.cr (evaluated o) ∙ simp all_kinds

-- The statuses that the phase is read off.
module _ (o : Observation) where
  pub evaluated-ready : status_of (stamped o.cr (evaluated o)) ready ≡ (eval_ready o).status
  unfolding evaluated status_of
  evaluated-ready = simp (status_of-stamped, all_kinds)

  pub evaluated-available :
      status_of (stamped o.cr (evaluated o)) available ≡ (eval_available o).status
  unfolding evaluated status_of
  evaluated-available = simp (status_of-stamped, all_kinds)

  pub evaluated-progressing :
      status_of (stamped o.cr (evaluated o)) progressing ≡ (eval_progressing o).status
  unfolding evaluated status_of
  evaluated-progressing = simp (status_of-stamped, all_kinds)

  pub evaluated-reconciled :
      status_of (stamped o.cr (evaluated o)) reconciled ≡ (eval_reconciled o).status
  unfolding evaluated status_of
  evaluated-reconciled = simp (status_of-stamped, all_kinds)

  pub evaluated-degraded :
      status_of (stamped o.cr (evaluated o)) degraded ≡ (eval_degraded o).status
  unfolding evaluated status_of
  evaluated-degraded = simp (status_of-stamped, all_kinds)

  pub evaluated-quorum :
      status_of (stamped o.cr (evaluated o)) quorum_lost ≡ (eval_quorum_lost o).status
  unfolding evaluated status_of
  evaluated-quorum = simp (status_of-stamped, all_kinds)

found-bootstrap :
    (o : Observation)
    → find_condition (evaluated o) bootstrap_complete ≡ some (eval_bootstrap_complete o)
unfolding evaluated find_condition
found-bootstrap o = simp all_kinds

find_condition-map :
    (g : ℤ) (conds : List Condition) (t : ConditionType) (c : Condition)
    → find_condition conds t ≡ some c
    → find_condition (map (stamp_generation g) conds) t ≡ some (stamp_generation g c)
unfolding find_condition
find_condition-map g [] t c h = cc
find_condition-map g (x ∷ conds) t c h = ground (arith, find_condition-map g conds t c)

find_condition-stamped :
    (cr : Option Valkey) (conds : List Condition) (t : ConditionType) (c : Condition)
    → find_condition conds t ≡ some c
    → (d : Condition) × (find_condition (stamped cr conds) t ≡ some d)
      × (d.status ≡ c.status)
      × (d.reason ≡ c.reason)
      × (d.message ≡ c.message)
unfolding stamped find_condition
find_condition-stamped none conds t c h = (c, h, refl, refl, refl)
find_condition-stamped (some cr) conds t c h = (
  stamp_generation cr.generation c,
  find_condition-map cr.generation conds t c h,
  refl,
  refl,
  refl,
)

-- The evaluation reports what the evaluator of BootstrapComplete says.
pub evaluated-bootstrap :
    (o : Observation)
    → (c : Condition) × (find_condition (evaluate o).0 bootstrap_complete ≡ some c)
      × (c.status ≡ (eval_bootstrap_complete o).status)
      × (c.reason ≡ (eval_bootstrap_complete o).reason)
      × (c.message ≡ (eval_bootstrap_complete o).message)
unfolding evaluate
evaluated-bootstrap o =
    find_condition-stamped o.cr (evaluated o) bootstrap_complete (eval_bootstrap_complete o)
      (found-bootstrap o)
