-- ===== src/Controller/Dispatch.antt =====
-- internal/controller/primary_rollout.go: `runPrimaryRolloutDispatch` and what it calls. The calls over
-- the network are parameters: what a pass's list of the pods, lag checks, patches and the FAILOVER
-- return. A patch that returns an error has changed nothing.
pub mod Crash
pub mod Gates
pub mod Plans
use Prim.Native.Nat.{Ordering}
use Prim.Native.String.{compare}
use velkir.Prelude.{
  ℕ, zero, suc, Bool, true, false, not, ◌&&◌, List, [], ◌∷◌, Option, none, some, String, str_eq,
  ◌==◌, if◌then◌else◌,
}
use velkir.Prelude.Int.{ℤ, pos, ltb_ℤ, leb_ℤ, eq_ℤ}
use velkir.Prelude.Time.{Time, time_add}
use velkir.Sentinel.Types.{Snapshot}
use velkir.Orchestration.Machine.{State, state_code, rollout_primary}
use velkir.Controller.Pods.{Pod, pod_ready}
use velkir.Controller.Latch.{
  FailoverLatch, Marker, latch_ttl, nogoodslave_cooldown_ttl, max_rollout_snapshot_age,
  snapshot_stale, failover_latch_active,
}

-- The loop of `classifyPrimaryRolloutPods`: the last labelled primary, and the viable replicas in order.
unfoldable pub is_viable : Pod → Bool
is_viable p = not p.is_primary && (not p.terminating && (not (str_eq p.ip "") && pod_ready p))

unfoldable pub candidates_of : List Pod → List Pod
candidates_of [] = []
candidates_of (p ∷ ps) = if is_viable p then p ∷ candidates_of ps else candidates_of ps

unfoldable pub primary_of : Option Pod → List Pod → Option Pod
primary_of found [] = found
primary_of found (p ∷ ps) = primary_of (if p.is_primary then some p else found) ps

-- What a lag check returns of a pod, if it returns.
pub record LagState : Type 0 where
  pub is_master : Bool
  pub link_up : Bool
  pub lag_bytes : ℤ

-- The lag that a candidate is scored with, or `none` if it is not eligible.
unfoldable pub score : ℤ → Option LagState → Option ℤ
score max_lag none = none
score max_lag (some st) =
    if st.is_master
    then some (pos 0)
    else if not st.link_up
    then none
    else if ltb_ℤ max_lag st.lag_bytes
    then none
    else some st.lag_bytes

abbrev text_before : String → String → Bool
text_before s t = elim (compare s t) [ Ordering.lt ↦ true | _ ↦ false ]

-- The comparison of the sort: the lower lag, and the smaller name on a tie.
unfoldable pub scored_before : Pod × ℤ → Pod × ℤ → Bool
scored_before (p, a) (q, b) = if eq_ℤ a b then text_before p.name q.name else ltb_ℤ a b

-- The head of the sorted list, kept along the loop; the first of two that compare equal stays.
unfoldable pub better : Option (Pod × ℤ) → Pod × ℤ → Option (Pod × ℤ)
better none x = some x
better (some y) x = if scored_before x y then some x else some y

unfoldable pub scored : Option (Pod × ℤ) → Pod → Option ℤ → Option (Pod × ℤ)
scored best p none = best
scored best p (some a) = better best (p, a)

unfoldable pub pick : (Pod → Option LagState) → ℤ → Option (Pod × ℤ) → List Pod → Option (Pod × ℤ)
pick check max_lag best [] = best
pick check max_lag best (p ∷ ps) = pick check max_lag (scored best p (score max_lag (check p))) ps

unfoldable pub rollout_max_lag_bytes : ℤ → ℤ
rollout_max_lag_bytes spec = if leb_ℤ spec (pos 0) then pos 10_000 else spec

-- What a dispatch acts on: the marker that the API server stores, the latch in memory, whether the
-- outgoing primary has its label, and whether sentinel runs a failover that was asked for.
pub record World : Type 0 where
  pub marker : Option Marker
  pub latch : Option FailoverLatch
  pub labelled : Bool
  pub in_flight : Bool

pub data FailoverReply : Type 0 where
  accepted in_progress refused : FailoverReply

-- What the calls of one dispatch return.
pub record Calls : Type 0 where
  pub persisted : Bool
  pub stripped : Bool
  pub reply : FailoverReply
  pub restored : Bool
  pub cleared : Bool

abbrev pub marker_of : Snapshot → Time → Marker
marker_of snap deadline = record {
  pre_strip_addr = snap.primary.addr;
  pre_strip_epoch = snap.primary.epoch;
  deadline = some deadline;
}

abbrev pub latch_of : Snapshot → Time → FailoverLatch
latch_of snap deadline = record {
  pre_strip_addr = snap.primary.addr;
  deadline = deadline;
  pre_strip_epoch = snap.primary.epoch;
}

abbrev pub cooldown_of : Snapshot → Time → FailoverLatch
cooldown_of snap deadline = record {
  pre_strip_addr = snap.primary.addr;
  deadline = deadline;
  pre_strip_epoch = pos 0;
}

-- One call of a dispatch that changes something.
pub data Effect : Type 0 where
  persist_marker : Marker → Effect
  set_latch : FailoverLatch → Effect
  drop_latch : Effect
  strip_label : Effect
  start_failover : Effect
  restore_label : Bool → Effect
  clear_marker : Bool → Effect

abbrev pub act : Effect → World → World
act (persist_marker m) w = record w { marker = some m }
act (set_latch l) w = record w { latch = some l }
act drop_latch w = record w { latch = none }
act strip_label w = record w { labelled = false }
act start_failover w = record w { in_flight = true }
act (restore_label ok) w = record w { labelled = if ok then true else w.labelled }
act (clear_marker ok) w = record w { marker = if ok then none else w.marker }

unfoldable pub after_reply : FailoverReply → Snapshot → Time → Calls → List Effect
after_reply refused snap cooldown c =
    restore_label c.restored ∷ clear_marker c.cleared ∷ set_latch (cooldown_of snap cooldown) ∷ []
after_reply _ snap cooldown c = start_failover ∷ []

unfoldable pub after_strip : Bool → Snapshot → Time → Calls → List Effect
after_strip true snap cooldown c = strip_label ∷ after_reply c.reply snap cooldown c
after_strip false snap cooldown c = drop_latch ∷ clear_marker c.cleared ∷ []

unfoldable pub after_persist : Bool → Snapshot → Time → Time → Calls → List Effect
after_persist false snap deadline cooldown c = []
after_persist true snap deadline cooldown c =
    persist_marker (marker_of snap deadline)
    ∷ set_latch (latch_of snap deadline)
    ∷ after_strip c.stripped snap cooldown c

-- The strip and the FAILOVER, as the effects of the calls in their order.
unfoldable pub hand_off : Snapshot → Time → Time → Calls → List Effect
hand_off snap deadline cooldown c = after_persist c.persisted snap deadline cooldown c

-- The readings of the clock, in order: for the age of the snapshot, the latch, the deadline and the
-- cool-down.
pub record Pass : Type 0 where
  pub state : State
  pub observer : Option Snapshot
  pub now : Time
  pub latch_now : Time
  pub dispatch_now : Time
  pub cooldown_now : Time
  pub listed : Option (List Pod)
  pub check_lag : Pod → Option LagState
  pub spec_max_lag : ℤ
  pub calls : Calls

-- How a dispatch ends before its effects.
pub data Plan : Type 0 where
  hold : Plan
  no_suitable_replica : Plan
  go : Snapshot → Pod → Pod → Plan

unfoldable pub plan_candidate : Snapshot → Pod → Option (Pod × ℤ) → Plan
plan_candidate snap primary none = no_suitable_replica
plan_candidate snap primary (some (p, lag)) = go snap primary p

unfoldable pub plan_primary : Pass → Snapshot → Option Pod → List Pod → Plan
plan_primary d snap none candidates = hold
plan_primary d snap (some primary) [] = no_suitable_replica
plan_primary d snap (some primary) (p ∷ ps) =
    plan_candidate snap primary
      (pick d.check_lag (rollout_max_lag_bytes d.spec_max_lag) none (p ∷ ps))

unfoldable pub plan_pods : Pass → Snapshot → Option (List Pod) → Plan
plan_pods d snap none = hold
plan_pods d snap (some pods) = plan_primary d snap (primary_of none pods) (candidates_of pods)

-- The plan, and the latch that the check of it leaves.
unfoldable pub plan_latched :
    Pass → Snapshot → Bool × Option FailoverLatch → Plan × Option FailoverLatch
plan_latched d snap (held, left) = (if held then hold else plan_pods d snap d.listed, left)

unfoldable pub plan_snapshot :
    Pass → Option FailoverLatch → Option Snapshot → Plan × Option FailoverLatch
plan_snapshot d latch none = (hold, latch)
plan_snapshot d latch (some snap) =
    if not (snap.present && snap.primary.quorum_ok)
    then (hold, latch)
    else if snapshot_stale snap d.now max_rollout_snapshot_age
    then (hold, latch)
    else plan_latched d snap
        (failover_latch_active latch d.latch_now (snap.primary.addr, snap.primary.epoch))

unfoldable pub plan : Pass → Option FailoverLatch → Plan × Option FailoverLatch
plan d latch =
    if state_code d.state == state_code rollout_primary
    then plan_snapshot d latch d.observer
    else (hold, latch)

unfoldable pub effects_of : Pass → Plan → List Effect
effects_of d (go snap primary candidate) =
    hand_off snap (time_add d.dispatch_now latch_ttl)
      (time_add d.cooldown_now nogoodslave_cooldown_ttl) d.calls
effects_of d _ = []

abbrev succeeds : FailoverReply → Bool
succeeds FailoverReply.refused = false
succeeds _ = true

-- What `runPrimaryRolloutDispatch` returns: whether the state machine was advanced.
unfoldable pub advanced : Pass → Plan → Bool
advanced d hold = false
advanced d no_suitable_replica = true
advanced d (go snap primary candidate) =
    d.calls.persisted && (d.calls.stripped && succeeds d.calls.reply)

-- The world after the first effects, as many as there was time for.
unfoldable pub perform : ℕ → List Effect → World → World
perform zero es w = w
perform (suc k) [] w = w
perform (suc k) (e ∷ es) w = perform k es (act e w)

-- A dispatch that is cut off after some of its effects; enough of them is the whole dispatch.
unfoldable pub dispatch : ℕ → Pass → World → World
dispatch k d w =
    let (decided, left) = plan d w.latch in
    perform k (effects_of d decided) (record w { latch = left })
