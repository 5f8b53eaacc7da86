-- ===== src/Orchestration/Machine/Runs.antt =====
-- Runs of the rollout state machine: sequences of events, each with what was observed at it.
use velkir.Prelude.{ℕ, ◌≡◌, ◌≢◌, refl, false, List, [], ◌∷◌, arith, All}
use velkir.Orchestration.Machine.Dispatch.{dispatch, apply-dispatch}
use velkir.Orchestration.Machine.Safety.{next}
use velkir.Orchestration.Machine.{
  quorum_lost_sustained, State, bootstrap, rollout_pending, rollout_replicas, rollout_primary,
  failover_in_flight, rollout_complete, degraded_quorum_lost, exited, Event, switch_master,
  quorum_reached, cr_deleted, cr_created, GuardCtx,
}

-- The state after a sequence of observed events. A lookup with no matching row keeps the state.
unfoldable pub run : State → List (Event × GuardCtx) → State
run s [] = s
run s ((e, c) ∷ es) = run (next s e c) es

-- How far a rollout has come; the states with no rollout under way are at 0.
abbrev pub stage : State → ℕ
stage rollout_pending = 1
stage rollout_replicas = 2
stage rollout_primary = 3
stage failover_in_flight = 4
stage rollout_complete = 5
stage _ = 0

abbrev pub NoSwitch : List (Event × GuardCtx) → Type 0
NoSwitch = All (λ p. p.0 ≢ switch_master)

next_from_exited : (e : Event) (c : GuardCtx) → next exited e c ≡ exited
next_from_exited e c = rw (apply-dispatch exited e c, next) (unfold dispatch in refl)

-- The exit is final: no event moves the machine out of it.
pub run-exited : (es : List (Event × GuardCtx)) → run exited es ≡ exited
unfolding run
run-exited [] = refl
run-exited ((e, c) ∷ es) = rw (next_from_exited e c) (run-exited es)

dispatch-absorb :
    (s : State) (c : GuardCtx)
    → s ≢ exited
    → ((dispatch s cr_deleted c).0 ≡ exited)
      × ((dispatch s quorum_lost_sustained c).0 ≡ degraded_quorum_lost)
unfolding dispatch
dispatch-absorb bootstrap c h = (refl, refl)
dispatch-absorb exited c h = absurd (h refl)
dispatch-absorb _ c h = (refl, refl)

-- The events after which a run in the observation-only state may leave it.
abbrev pub Observes : Event × GuardCtx → Type 0
Observes p =
    (p.0 ≢ cr_deleted) × ((p.0 ≡ quorum_reached) → p.1.ckquorum_ok_hysteresis_passed ≡ false)

dispatch_stays :
    (e : Event) (c : GuardCtx)
    → Observes (e, c)
    → (dispatch degraded_quorum_lost e c).0 ≡ degraded_quorum_lost
unfolding dispatch
dispatch_stays cr_created c h = refl
dispatch_stays _ c h = ground arith

next_stays :
    (e : Event) (c : GuardCtx)
    → Observes (e, c)
    → next degraded_quorum_lost e c ≡ degraded_quorum_lost
next_stays e c h = rw (apply-dispatch degraded_quorum_lost e c, next) (dispatch_stays e c h)

run_stays :
    (es : List (Event × GuardCtx))
    → All Observes es
    → run degraded_quorum_lost es ≡ degraded_quorum_lost
unfolding run
run_stays [] h = refl
run_stays ((e, c) ∷ es) h = rw (next_stays e c h.0) (run_stays es h.1)

-- From every state but the exit, a sustained loss of quorum leads into the observation-only state,
-- and a run stays there over any events that are neither a deletion nor a recovered quorum after the
-- hysteresis.
pub run-Observes :
    (s : State) (c : GuardCtx) (es : List (Event × GuardCtx))
    → s ≢ exited
    → All Observes es
    → run s ((quorum_lost_sustained, c) ∷ es) ≡ degraded_quorum_lost
unfolding run
run-Observes s c es live h =
    rw (apply-dispatch s quorum_lost_sustained c, next)
      (rw ((dispatch-absorb s c live).1) (run_stays es h))
