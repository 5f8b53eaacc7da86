-- ===== src/Controller/Fsm/Suspension.antt =====
-- The stamp of a suspended rollout over the passes of a resource's life.
use velkir.Prelude.{
  ◌≡◌, ◌≢◌, refl, Bool, true, false, List, [], ◌∷◌, ◌++◌, Option, none, some, String, arith,
  if◌then◌else◌, All, if_intro,
}
use velkir.Orchestration.Machine.{
  Event, apply, State, bootstrap, steady, rollout_pending, rollout_replicas, degraded,
}
use velkir.Orchestration.Machine.Table.{default_transitions}
use velkir.Controller.Fsm.{
  rollout_primary, applied_of, aborted, returned, cleaned, start, dispatch_all, SuspendedFrom,
  suspended_code, Outcome, Patches, Observed, Kept, Rows, edges, abort, recover, recovers,
  stamp_suspended_from, clear_suspended_from, read_suspended_from_pending, apply_fsm, guards,
  is_state, abort_and_recovery_dispatch,
}

-- The field does not say that a pending rollout was suspended, in the copy and as stored.
abbrev NotPending : Outcome → Type 0
NotPending o = (suspended_code o.stored ≡ false) × (suspended_code o.held ≡ false)

abort-NotPending :
    (rows : Rows) (q : Bool) (p : Patches) (prev : State) (o : Outcome)
    → prev ≢ rollout_pending
    → NotPending o
    → NotPending (abort rows q p prev o)
unfolding abort stamp_suspended_from
abort-NotPending rows q p rollout_pending o h n = absurd (h refl)
abort-NotPending rows q p rollout_replicas o h n = (ground (arith, n), ground (arith, n))
abort-NotPending rows q p _ o h n = n

clear-NotPending : (b : Bool) (o : Outcome) → NotPending o → NotPending (clear_suspended_from b o)
unfolding clear_suspended_from
clear-NotPending b o n = (ground (arith, n), ground (arith, n))

recover-NotPending :
    (rows : Rows) (q : Bool) (p : Patches) (o : Outcome)
    → NotPending o
    → NotPending (recover rows q p o)
unfolding recover clear_suspended_from
recover-NotPending rows q p o n = (ground (arith, n), ground (arith, n))

edges-NotPending :
    (rows : Rows) (q : Bool) (p : Patches) (prev state : State) (stored : Option SuspendedFrom)
    → prev ≢ rollout_pending
    → suspended_code stored ≡ false
    → NotPending (edges rows q p prev state stored)
unfolding edges aborted returned cleaned
edges-NotPending rows q p prev state stored h n =
    let a : NotPending (aborted rows q p prev state (start stored)) =
      if_intro NotPending (is_state state degraded) (abort rows q p prev (start stored))
        (start stored) (λ _. abort-NotPending rows q p prev (start stored) h (n, n))
        (λ _. (n, n)) in
    let b : NotPending (returned rows q p prev state (aborted rows q p prev state (start stored))) =
      if_intro NotPending (recovers prev state) (recover rows q p _) _
        (λ _. recover-NotPending rows q p _ a) (λ _. a) in
    if_intro NotPending (is_state state steady) (clear_suspended_from p.hygiene _) _
      (λ _. clear-NotPending p.hygiene _ b) (λ _. b)

fsm-replicas :
    (q : Bool)
    → (apply_fsm
        (some default_transitions)
        rollout_replicas
        Event.quorum_lost
        (guards q false)).recorded
      ≡ some "RolloutAbortedQuorumLost"
unfolding apply_fsm applied_of apply default_transitions guards
fsm-replicas q = refl

fsm-primary :
    (q : Bool)
    → (apply_fsm
        (some default_transitions)
        rollout_primary
        Event.reconcile_tick
        (guards q false)).recorded
      ≡ some "PrimaryRolloutBlocked"
unfolding apply_fsm applied_of apply default_transitions guards
fsm-primary true = refl
fsm-primary false = refl

fsm-recovered :
    (q : Bool)
    → (apply_fsm (some default_transitions) degraded Event.recovered (guards q false)).recorded
      ≡ (if q then some "DegradedResolved" else none)
unfolding apply_fsm applied_of apply default_transitions guards
fsm-recovered true = refl
fsm-recovered false = refl

-- The reasons that a pass records at the edge between two observed states.
pub edge_reasons : Bool → State → State → List String
edge_reasons q rollout_replicas degraded = "RolloutAbortedQuorumLost" ∷ []
edge_reasons q rollout_primary degraded = "PrimaryRolloutBlocked" ∷ []
edge_reasons q degraded steady = if q then "DegradedResolved" ∷ [] else []
edge_reasons q prev state = []

edges-recorded :
    (q : Bool) (p : Patches) (prev state : State) (stored : Option SuspendedFrom)
    → prev ≢ rollout_pending
    → state ≢ rollout_pending
    → suspended_code stored ≡ false
    → (edges (some default_transitions) q p prev state stored).recorded ≡ edge_reasons q prev state
unfolding edges aborted returned cleaned abort recover recovers clear_suspended_from
    stamp_suspended_from read_suspended_from_pending edge_reasons
edges-recorded q p bootstrap bootstrap stored h i n =
    ground (arith, n, fsm-replicas q, fsm-primary q, fsm-recovered q)
edges-recorded q p _ _ stored h i n =
    ground (arith, n, fsm-replicas q, fsm-primary q, fsm-recovered q)

-- The reasons of all the edges of a life that starts in this state.
pub all_edge_reasons : State → List Observed → List String
all_edge_reasons prev [] = []
all_edge_reasons prev (x ∷ xs) =
    edge_reasons x.quorum_ok prev x.state ++ all_edge_reasons x.state xs

-- Where no pass observes a pending rollout, a life with the rollout table records exactly one reason at
-- each edge into the degraded state from a rolling one and, with quorum, from it into the steady one;
-- and the field never says that a pending rollout was suspended, so none is ever resumed.
pub dispatch_all-edge_reasons :
    (xs : List Observed) (k : Kept)
    → All (λ x. x.state ≢ rollout_pending) xs
    → k.last_state ≢ rollout_pending
    → suspended_code k.stored ≡ false
    → ((dispatch_all (some default_transitions) xs k).0 ≡ all_edge_reasons k.last_state xs)
      × (suspended_code (dispatch_all (some default_transitions) xs k).1.stored ≡ false)
unfolding dispatch_all abort_and_recovery_dispatch all_edge_reasons
dispatch_all-edge_reasons [] k hs h n = (refl, n)
dispatch_all-edge_reasons (x ∷ xs) k hs h n =
    let clean =
      edges-NotPending (some default_transitions) x.quorum_ok x.patches k.last_state x.state
        k.stored h n in
    let now = edges-recorded x.quorum_ok x.patches k.last_state x.state k.stored h hs.0 n in
    let (later, last) = dispatch_all-edge_reasons xs _ hs.1 hs.0 clean.0 in
    (rw (now, later) refl, last)
