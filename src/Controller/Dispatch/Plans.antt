-- ===== src/Controller/Dispatch/Plans.antt =====
-- What a dispatch requires before it asks for a failover.
use velkir.Prelude.{◌≡◌, true, false, List, Option, none, some}
use velkir.Prelude.Int.{ℤ}
use velkir.Sentinel.Types.{Snapshot}
use velkir.Orchestration.Machine.{rollout_primary}
use velkir.Controller.Pods.{Pod}
use velkir.Controller.Latch.{
  FailoverLatch, snapshot_stale, max_rollout_snapshot_age, failover_latch_active,
}
use velkir.Controller.Dispatch.{Pass, Plan, go, candidates_of, primary_of, rollout_max_lag_bytes}
use velkir.Controller.Dispatch.Gates.{Among, EligibleState}

-- The pass lists the pods, finds the outgoing primary and picks one of the other viable pods.
abbrev pub Picks : Pass → Pod → Pod → Type 0
Picks d primary candidate =
    (pods : List Pod) × (lag : ℤ) × (d.listed ≡ some pods)
    × (primary_of none pods ≡ some primary)
    × Among candidate (candidates_of pods)
    × EligibleState (rollout_max_lag_bytes d.spec_max_lag) lag (d.check_lag candidate)

-- A plan that goes ahead acts on this snapshot, and on pods that the pass picks.
abbrev PicksOn : Pass → Snapshot → Plan → Type 0
PicksOn d snap (go s primary candidate) = (snap ≡ s) × Picks d primary candidate
PicksOn d snap _ = Unit

-- The gates before the pods are listed.
abbrev pub Gated : Pass → Option FailoverLatch → Snapshot → Type 0
Gated d latch snap =
    (snap.present ≡ true)
    × (snap.primary.quorum_ok ≡ true)
    × (snapshot_stale snap d.now max_rollout_snapshot_age ≡ false)
    × ((failover_latch_active latch d.latch_now (snap.primary.addr, snap.primary.epoch)).0 ≡ false)

-- What holds of a plan that goes ahead.
abbrev Cleared : Pass → Option FailoverLatch → Option Snapshot → Plan → Type 0
Cleared d latch observer (go snap primary candidate) =
    (observer ≡ some snap) × Gated d latch snap × Picks d primary candidate
Cleared d latch observer _ = Unit

-- A pass in the hand-off state, with the gates open and a pod to promote.
abbrev pub Allows : Pass → Option FailoverLatch → Type 0
Allows d latch =
    (snap : Snapshot) × (primary : Pod) × (candidate : Pod) × (d.state ≡ rollout_primary)
    × (d.observer ≡ some snap)
    × Gated d latch snap
    × Picks d primary candidate

-- A plan that goes ahead is allowed.
abbrev GoesAllowed : Pass → Option FailoverLatch → Plan → Type 0
GoesAllowed d latch (go snap primary candidate) = Allows d latch
GoesAllowed d latch _ = Unit
