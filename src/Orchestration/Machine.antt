-- ===== src/Orchestration/Machine.antt =====
-- internal/orchestration/states.go, events.go and the first half of transitions.go: the states and
-- events of the rollout state machine, what a transition reads and records, and the lookup `Apply`.
-- A state and an event are strings in the source; here they are the closed sets of its constants,
-- with `exited` for the empty state.
pub mod Table
pub mod Dispatch
pub mod Rows
pub mod Safety
pub mod Runs
use velkir.Prelude.{
  ℕ, Bool, true, false, ◌&&◌, List, [], ◌∷◌, Option, none, some, String, ◌==◌, if◌then◌else◌,
}
use velkir.Prelude.Int.{pos}
use velkir.Prelude.Time.{Duration}

pub data State : Type 0 where
  bootstrap steady rollout_pending rollout_replicas rollout_primary : State
  failover_in_flight rollout_complete degraded degraded_quorum_lost exited : State

-- Two states are compared by their place in the list of constants.
abbrev pub state_code : State → ℕ
state_code bootstrap = 0
state_code steady = 1
state_code rollout_pending = 2
state_code rollout_replicas = 3
state_code rollout_primary = 4
state_code failover_in_flight = 5
state_code rollout_complete = 6
state_code degraded = 7
state_code degraded_quorum_lost = 8
state_code exited = 9

abbrev pub all_states : List State
all_states =
    bootstrap ∷ steady ∷ rollout_pending ∷ rollout_replicas ∷ rollout_primary ∷ failover_in_flight
    ∷ rollout_complete ∷ degraded ∷ degraded_quorum_lost ∷ []

pub data Event : Type 0 where
  cr_created quorum_primary_agreed reconcile_tick rollout_trigger switch_master : Event
  split_brain_detected replica_selected replica_rolled all_replicas_rolled quorum_lost : Event
  quorum_lost_sustained quorum_reached spec_changed failover_end failover_end_for_timeout : Event
  failover_abort failover_timeout_exceeded old_primary_ready recovered cr_deleted : Event

abbrev pub event_code : Event → ℕ
event_code cr_created = 0
event_code quorum_primary_agreed = 1
event_code reconcile_tick = 2
event_code rollout_trigger = 3
event_code switch_master = 4
event_code split_brain_detected = 5
event_code replica_selected = 6
event_code replica_rolled = 7
event_code all_replicas_rolled = 8
event_code quorum_lost = 9
event_code quorum_lost_sustained = 10
event_code quorum_reached = 11
event_code spec_changed = 12
event_code failover_end = 13
event_code failover_end_for_timeout = 14
event_code failover_abort = 15
event_code failover_timeout_exceeded = 16
event_code old_primary_ready = 17
event_code recovered = 18
event_code cr_deleted = 19

pub record GuardCtx : Type 0 where
  pub quorum_ok : Bool
  pub split_brain : Bool
  pub quorum_primary_agreed : Bool
  pub pod0_labeled_primary : Bool
  pub candidate_replica_ready : Bool
  pub has_more_replicas : Bool
  pub new_primary_stable : Bool
  pub old_primary_now_replica : Bool
  pub old_primary_replica_ready : Bool
  pub rollout_suspended_from_pending : Bool
  pub ckquorum_ok_hysteresis_passed : Bool

-- An empty `event_reason` records no event.
pub record SideEffect : Type 0 where
  pub event_reason : String
  pub requeue_after : Duration

abbrev pub no_effect : SideEffect
no_effect = record { event_reason = ""; requeue_after = pos 0 }

-- A row of the table; a nil guard is `none`.
pub record Transition : Type 0 where
  pub tag : String
  pub from : State
  pub event : Event
  pub guard : Option (GuardCtx → Bool)
  pub next_state : State
  pub side_effect : SideEffect

abbrev pub guard_passes : Option (GuardCtx → Bool) → GuardCtx → Bool
guard_passes none ctx = true
guard_passes (some g) ctx = g ctx

-- Whether the loop of `Apply` stops at this row.
abbrev pub row_matches : Transition → State → Event → GuardCtx → Bool
row_matches t s e ctx =
    state_code t.from == state_code s
    && event_code t.event == event_code e
    && guard_passes t.guard ctx

-- What `Apply` returns: the next state, the side effect, and whether a row matched.
abbrev pub Verdict : Type 0
Verdict = State × SideEffect × Bool

abbrev pub fire : Transition → Verdict
fire t = (t.next_state, t.side_effect, true)

-- The loop of `Apply` over the rows of a machine.
unfoldable pub apply : List Transition → State → Event → GuardCtx → Verdict
apply [] s e ctx = (s, no_effect, false)
apply (t ∷ ts) s e ctx =
    let rest = apply ts s e ctx in if row_matches t s e ctx then fire t else rest
