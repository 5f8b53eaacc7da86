-- ===== src/Controller/Pods.antt =====
-- internal/controller: what the decisions read of a pod. A label that is missing is the empty string,
-- as a read of the map gives it; the role `primary` is a field of its own.
use velkir.Prelude.{Bool, true, false, List, [], ◌∷◌, String}

pub data PodConditionType : Type 0 where
  pod_ready_type replication_ready_gate other_type : PodConditionType

-- A condition and whether its status is `True`.
pub record PodCondition : Type 0 where
  pub kind : PodConditionType
  pub is_true : Bool

pub record Pod : Type 0 where
  pub name : String
  pub is_primary : Bool
  pub revision : String
  pub ip : String
  pub terminating : Bool
  pub conditions : List PodCondition

unfoldable pub condition_ready : List PodCondition → Bool
condition_ready [] = false
condition_ready (c ∷ cs) = elim c.kind [ pod_ready_type ↦ c.is_true | _ ↦ condition_ready cs ]

unfoldable pub pod_ready : Pod → Bool
pod_ready p = condition_ready p.conditions

unfoldable pub condition_healthy : List PodCondition → Bool
condition_healthy [] = true
condition_healthy (c ∷ cs) = elim c.kind [
  | replication_ready_gate ↦ c.is_true
  | _ ↦ condition_healthy cs
]

-- A pod without the readiness gate is taken for healthy.
unfoldable pub pod_replication_healthy : Pod → Bool
pod_replication_healthy p = condition_healthy p.conditions
