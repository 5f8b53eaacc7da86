-- ===== src/Controller/Fsm.antt =====
-- internal/controller/fsm.go and fsm_transitions.go: the calls of the state machine at the edges into
-- and out of the degraded state, and the stamp of a suspended rollout.
pub mod Suspension
use velkir.Prelude.{
  ◌++◌, Bool, true, false, ◌&&◌, ◌||◌, List, [], ◌∷◌, Option, none, some, String, str_eq, ◌==◌,
  if◌then◌else◌,
}
use velkir.Prelude.Int.{ℤ, pos}
use velkir.Prelude.Time.{Time, Duration}
use velkir.Orchestration.Machine.{
  State, steady, rollout_pending, rollout_replicas, rollout_primary, failover_in_flight,
  rollout_complete, degraded, state_code, Event, reconcile_tick, quorum_lost, recovered, GuardCtx,
  Transition, SideEffect, apply,
}
use velkir.Controller.Latch.{FailoverLatch, failover_latch_active_pure}

-- What `applyFSM` returns, with the reason of the event that it records, if any.
pub record Applied : Type 0 where
  pub next_state : State
  pub requeue_after : Duration
  pub matched : Bool
  pub recorded : Option String

abbrev unmatched : State → Applied
unmatched s = record { next_state = s; requeue_after = pos 0; matched = false; recorded = none }

unfoldable pub applied_of : State → State × SideEffect × Bool → Applied
applied_of s (next, side, false) = unmatched s
applied_of s (next, side, true) = record {
  next_state = next;
  requeue_after = side.requeue_after;
  matched = true;
  recorded = if str_eq side.event_reason "" then none else some side.event_reason;
}

-- A reconciler without a machine is `none`.
unfoldable pub apply_fsm : Option (List Transition) → State → Event → GuardCtx → Applied
apply_fsm none s e c = unmatched s
apply_fsm (some rows) s e c = applied_of s (apply rows s e c)

unfoldable pub is_in_rollout_state : State → Bool
is_in_rollout_state rollout_pending = true
is_in_rollout_state rollout_replicas = true
is_in_rollout_state rollout_primary = true
is_in_rollout_state failover_in_flight = true
is_in_rollout_state rollout_complete = true
is_in_rollout_state _ = false

unfoldable pub valkey_roll_active : State → Bool
valkey_roll_active s =
    state_code s == state_code rollout_replicas || state_code s == state_code rollout_primary

-- The tracker of the last observed state: `exited`, the empty state, before the first pass, and `none`
-- where there is no tracker.
unfoldable pub is_failover_in_flight :
    Option FailoverLatch → Option State → Time → String × ℤ → Bool
is_failover_in_flight latch last now observed =
    if failover_latch_active_pure latch now observed
    then true
    else elim last [ none ↦ false | some s ↦ state_code s == state_code failover_in_flight ]

unfoldable pub deferral_predicate :
    Bool → Option FailoverLatch → Option State → Time → String × ℤ → Bool
deferral_predicate suppressed latch last now observed =
    suppressed || is_failover_in_flight latch last now observed

-- The values of `Status.Rollout.SuspendedFrom`.
pub data SuspendedFrom : Type 0 where
  from_pending from_replicas : SuspendedFrom

abbrev pub suspended_code : Option SuspendedFrom → Bool
suspended_code (some from_pending) = true
suspended_code _ = false

-- What is kept from one pass to the next: the last state, and the field as the API server has it.
pub record Kept : Type 0 where
  pub last_state : State
  pub stored : Option SuspendedFrom

-- A pass of the dispatch: the reasons recorded, what is kept, and the resource's copy of the field.
pub record Outcome : Type 0 where
  pub recorded : List String
  pub stored : Option SuspendedFrom
  pub held : Option SuspendedFrom

abbrev note : Option String → List String
note none = []
note (some r) = r ∷ []

unfoldable pub guards : Bool → Bool → GuardCtx
guards quorum_ok suspended = record {
  quorum_ok = quorum_ok;
  split_brain = false;
  quorum_primary_agreed = false;
  pod0_labeled_primary = false;
  candidate_replica_ready = false;
  has_more_replicas = false;
  new_primary_stable = false;
  old_primary_now_replica = false;
  old_primary_replica_ready = false;
  rollout_suspended_from_pending = suspended;
  ckquorum_ok_hysteresis_passed = false;
}

abbrev same_value : Option SuspendedFrom → SuspendedFrom → Bool
same_value (some from_pending) from_pending = true
same_value (some from_replicas) from_replicas = true
same_value _ _ = false

-- `stampSuspendedFrom`, with whether its patch succeeds: the copy changes in any case.
unfoldable pub stamp_suspended_from : Bool → SuspendedFrom → Outcome → Outcome
stamp_suspended_from patched value o =
    if same_value o.held value
    then o
    else record o { held = some value; stored = if patched then some value else o.stored }

unfoldable pub clear_suspended_from : Bool → Outcome → Outcome
clear_suspended_from patched o = elim o.held [
  | none ↦ o
  | some v ↦ record o { held = none; stored = if patched then none else o.stored }
]

unfoldable pub read_suspended_from_pending : Outcome → Bool
read_suspended_from_pending o = suspended_code o.held

abbrev pub record_event : Applied → Outcome → Outcome
record_event a o = record o { recorded = o.recorded ++ note a.recorded }

-- Whether the patches of a pass succeed.
pub record Patches : Type 0 where
  pub stamp : Bool
  pub recovery : Bool
  pub hygiene : Bool

abbrev pub Rows : Type 0
Rows = Option (List Transition)

-- The switch on the state before the degraded one.
unfoldable pub abort : Rows → Bool → Patches → State → Outcome → Outcome
abort rows quorum_ok patches rollout_pending o =
    record_event (apply_fsm rows rollout_pending reconcile_tick (guards quorum_ok false))
      (stamp_suspended_from patches.stamp from_pending o)
abort rows quorum_ok patches rollout_replicas o =
    record_event (apply_fsm rows rollout_replicas quorum_lost (guards quorum_ok false))
      (stamp_suspended_from patches.stamp from_replicas o)
abort rows quorum_ok patches rollout_primary o =
    record_event (apply_fsm rows rollout_primary reconcile_tick (guards quorum_ok false)) o
abort rows quorum_ok patches _ o = o

unfoldable pub recover : Rows → Bool → Patches → Outcome → Outcome
recover rows quorum_ok patches o =
    let a = apply_fsm rows degraded recovered (guards quorum_ok (read_suspended_from_pending o)) in
    let noted = record_event a o in
    if a.matched then clear_suspended_from patches.recovery noted else noted

abbrev pub is_state : State → State → Bool
is_state s t = state_code s == state_code t

unfoldable pub recovers : State → State → Bool
recovers prev state =
    is_state prev degraded && (is_state state steady || is_state state rollout_pending)

unfoldable pub aborted : Rows → Bool → Patches → State → State → Outcome → Outcome
aborted rows quorum_ok patches prev state o =
    if is_state state degraded then abort rows quorum_ok patches prev o else o

unfoldable pub returned : Rows → Bool → Patches → State → State → Outcome → Outcome
returned rows quorum_ok patches prev state o =
    if recovers prev state then recover rows quorum_ok patches o else o

unfoldable pub cleaned : Patches → State → Outcome → Outcome
cleaned patches state o =
    if is_state state steady then clear_suspended_from patches.hygiene o else o

-- The resource is read afresh, so its copy of the field is what is stored.
abbrev pub start : Option SuspendedFrom → Outcome
start stored = record { recorded = []; stored = stored; held = stored }

-- `fsmAbortAndRecoveryDispatch` at these two states.
unfoldable pub edges : Rows → Bool → Patches → State → State → Option SuspendedFrom → Outcome
edges rows quorum_ok patches prev state stored = cleaned patches state (
    returned rows quorum_ok patches prev state
      (aborted rows quorum_ok patches prev state (start stored)))

-- What one reconcile observes.
pub record Observed : Type 0 where
  pub state : State
  pub quorum_ok : Bool
  pub patches : Patches

unfoldable pub abort_and_recovery_dispatch : Rows → Observed → Kept → List String × Kept
abort_and_recovery_dispatch rows x k =
    let o = edges rows x.quorum_ok x.patches k.last_state x.state k.stored in
    (o.recorded, record { last_state = x.state; stored = o.stored })

-- The passes of a resource's life.
unfoldable pub dispatch_all : Rows → List Observed → Kept → List String × Kept
dispatch_all rows [] k = ([], k)
dispatch_all rows (x ∷ xs) k =
    let (now, next) = abort_and_recovery_dispatch rows x k in
    let (later, last) = dispatch_all rows xs next in (now ++ later, last)
