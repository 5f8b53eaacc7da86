-- ===== src/Orchestration/Status/Latch.antt =====
-- The BootstrapComplete condition over the life of a resource, and the falling edge of Degraded.
use velkir.Prelude.{ap, true, ◌≡◌, ◌↔◌, refl, ◌∙◌, List, [], ◌∷◌, Option, none, some, arith}
use velkir.Orchestration.Observation.{
  ConditionStatus, ConditionType, Reason, Message, Condition, Valkey, Observation, holds, fails,
  unclear, bootstrap_complete, degraded,
}
use velkir.Orchestration.Evaluators.{
  eval_bootstrap_complete, find_condition, find_prior_condition, condition,
}
use velkir.Orchestration.Degraded.{degraded_flipped_false}
use velkir.Orchestration.Status.Laws.{evaluated-bootstrap}
use velkir.Orchestration.Status.{status_of, evaluate}

-- One reconcile: the resource carries the conditions of the last evaluation.
pub next_conditions : List Condition → Observation × Valkey → List Condition
next_conditions conds (o, v) =
    (evaluate (record o { cr = some (record v { conditions = conds }) })).0

pub reconcile_all : List Condition → List (Observation × Valkey) → List Condition
reconcile_all conds [] = conds
reconcile_all conds (p ∷ ps) = reconcile_all (next_conditions conds p) ps

-- The list reports the bootstrap complete, for the reason and with the message given.
abbrev pub Latched : Reason → Message → List Condition → Type 0
Latched r m conds =
    (c : Condition) × (find_condition conds bootstrap_complete ≡ some c)
    × (c.status ≡ holds)
    × (c.reason ≡ r)
    × (c.message ≡ m)

abbrev with_conditions : Observation → Valkey → List Condition → Observation
with_conditions o v conds = record o { cr = some (record v { conditions = conds }) }

eval-latch :
    (o : Observation) (v : Valkey) (conds : List Condition) (c : Condition)
    → find_condition conds bootstrap_complete ≡ some c
    → c.status ≡ holds
    → eval_bootstrap_complete (with_conditions o v conds)
      ≡ condition bootstrap_complete holds c.reason c.message
unfolding eval_bootstrap_complete find_prior_condition
eval-latch o v conds c found up = ground arith

next-Latched :
    (r : Reason) (m : Message) (conds : List Condition) (p : Observation × Valkey)
    → Latched r m conds
    → Latched r m (next_conditions conds p)
unfolding next_conditions
next-Latched r m conds (o, v) (c, found, up, because, saying) =
    let latch = eval-latch o v conds c found up in
    let (d, there, s, why, says) = evaluated-bootstrap (with_conditions o v conds) in
    (
      d,
      there,
      s ∙ ap (λ (x : Condition). x.status) latch,
      why ∙ (ap (λ (x : Condition). x.reason) latch ∙ because),
      says ∙ (ap (λ (x : Condition). x.message) latch ∙ saying),
    )

-- Once a resource reports BootstrapComplete as true, it reports it as true with the same reason and
-- message for ever, whatever is observed and whatever else changes in the resource.
pub reconcile_all-Latched :
    (r : Reason) (m : Message) (conds : List Condition) (ps : List (Observation × Valkey))
    → Latched r m conds
    → Latched r m (reconcile_all conds ps)
unfolding reconcile_all
reconcile_all-Latched r m conds [] h = h
reconcile_all-Latched r m conds (p ∷ ps) h =
    reconcile_all-Latched r m (next_conditions conds p) ps (next-Latched r m conds p h)

abbrev status_or_unclear : Option Condition → ConditionStatus
status_or_unclear none = unclear
status_or_unclear (some c) = c.status

status_of-find :
    (conds : List Condition) (t : ConditionType)
    → status_of conds t ≡ status_or_unclear (find_condition conds t)
unfolding find_condition status_of
status_of-find [] t = refl
status_of-find (c ∷ conds) t = ground (arith, status_of-find conds t)

-- The event of a resolved degradation is due exactly when the prior list reports Degraded as true and
-- the new one reports it as false; a list with no such condition reports neither.
pub flipped_iff :
    (prior current : List Condition)
    → (degraded_flipped_false prior current ≡ true)
      ↔ ((status_of prior degraded ≡ holds) × (status_of current degraded ≡ fails))
unfolding degraded_flipped_false
flipped_iff prior current = (
  ground (arith, status_of-find prior degraded, status_of-find current degraded),
  ground (arith, status_of-find prior degraded, status_of-find current degraded),
)
