-- ===== src/Controller/Dispatch/Crash.antt =====
-- A dispatch that is cut off at any point, and the operator that restarts after it.
use velkir.Prelude.{
  ◌==◌, ◌∙◌, any, ℕ, zero, suc, ◌≡◌, ◌⊎◌, refl, Bool, true, false, not, ◌&&◌, List, [], ◌∷◌, Option,
  none, some, String, arith, if◌then◌else◌,
}
use velkir.Prelude.Int.{ℤ, pos, ◌<ℤ◌}
use velkir.Prelude.Time.{Time, time_add}
use velkir.Sentinel.Types.{Snapshot}
use velkir.Controller.Latch.{FailoverLatch, latch_ttl, failover_latch_active}
use velkir.Orchestration.Machine.{state_code, rollout_primary}
use velkir.Controller.Dispatch.{
  max_rollout_snapshot_age, snapshot_stale, Pod, strip_label, start_failover, after_strip,
  after_persist, act, World, Calls, FailoverReply, marker_of, Effect, after_reply, hand_off, Pass,
  Plan, go, hold, no_suitable_replica, plan, plan_candidate, plan_primary, plan_pods, plan_latched,
  plan_snapshot, effects_of, perform, dispatch,
}

-- The failover runs only behind a stripped label and a stored marker.
abbrev pub Fenced : Snapshot → Time → World → Type 0
Fenced snap deadline w =
    w.in_flight ≡ true → (w.labelled ≡ false) × (w.marker ≡ some (marker_of snap deadline))

starts : Effect → Bool
starts start_failover = true
starts _ = false

pub perform-nil : (k : ℕ) (w : World) → perform k [] w ≡ w
unfolding perform
perform-nil zero w = refl
perform-nil (suc k) w = refl

act-in_flight : (e : Effect) (w : World) → starts e ≡ false → (act e w).in_flight ≡ w.in_flight
unfolding starts
act-in_flight start_failover w h = cc
act-in_flight _ w h = refl

-- Nothing but the FAILOVER starts a failover.
perform-in_flight :
    (k : ℕ) (es : List Effect) (w : World)
    → any starts es ≡ false
    → (perform k es w).in_flight ≡ w.in_flight
unfolding perform
perform-in_flight zero es w h = refl
perform-in_flight (suc k) [] w h = refl
perform-in_flight (suc k) (e ∷ es) w h =
    perform-in_flight k es (act e w) (ground (arith, h)) ∙ act-in_flight e w (ground (arith, h))

module _ (snap : Snapshot) (deadline cooldown : Time) (c : Calls) where
  still :
      (k : ℕ) (es : List Effect) (w : World)
      → any starts es ≡ false
      → w.in_flight ≡ false
      → Fenced snap deadline (perform k es w)
  still k es w none_starts calm i = ground (arith, i, calm, perform-in_flight k es w none_starts)

  start-Fenced :
      (k : ℕ) (w : World)
      → w.in_flight ≡ false
      → w.labelled ≡ false
      → w.marker ≡ some (marker_of snap deadline)
      → Fenced snap deadline (perform k (start_failover ∷ []) w)
  unfolding perform
  start-Fenced zero w calm stripped kept i = (stripped, kept)
  start-Fenced (suc k) w calm stripped kept i =
      rw (perform-nil k (act start_failover w)) (stripped, kept)

  reply-Fenced :
      (r : FailoverReply) (k : ℕ) (w : World)
      → w.in_flight ≡ false
      → w.labelled ≡ false
      → w.marker ≡ some (marker_of snap deadline)
      → Fenced snap deadline (perform k (after_reply r snap cooldown c) w)
  unfolding after_reply starts
  reply-Fenced FailoverReply.accepted k w calm stripped kept = start-Fenced k w calm stripped kept
  reply-Fenced FailoverReply.in_progress k w calm stripped kept =
      start-Fenced k w calm stripped kept
  reply-Fenced FailoverReply.refused k w calm stripped kept = still k _ w refl calm

  strip-Fenced :
      (stripped : Bool) (k : ℕ) (w : World)
      → w.in_flight ≡ false
      → w.marker ≡ some (marker_of snap deadline)
      → Fenced snap deadline (perform k (after_strip stripped snap cooldown c) w)
  unfolding after_strip perform starts
  strip-Fenced false k w calm kept i = still k _ w refl calm i
  strip-Fenced true zero w calm kept i = ground (arith, i, calm)
  strip-Fenced true (suc k) w calm kept i =
      reply-Fenced c.reply k (act strip_label w) calm refl kept i

  persist-Fenced :
      (persisted : Bool) (k : ℕ) (w : World)
      → w.in_flight ≡ false
      → Fenced snap deadline (perform k (after_persist persisted snap deadline cooldown c) w)
  unfolding after_persist perform
  persist-Fenced false k w calm i = still k [] w refl calm i
  persist-Fenced true zero w calm i = ground (arith, i, calm)
  persist-Fenced true (suc zero) w calm i = ground (arith, i, calm)
  persist-Fenced true (suc (suc k)) w calm i = strip-Fenced c.stripped k _ calm refl i

-- The plan acts on what the observer published.
abbrev ActsOn : Option Snapshot → Plan → Type 0
ActsOn observer (go s primary candidate) = observer ≡ some s
ActsOn observer _ = Unit

plan_candidate-ActsOn :
    (snap : Snapshot) (primary : Pod) (best : Option (Pod × ℤ))
    → ActsOn (some snap) (plan_candidate snap primary best)
unfolding plan_candidate
plan_candidate-ActsOn snap primary none = tt
plan_candidate-ActsOn snap primary (some x) = refl

plan_primary-ActsOn :
    (d : Pass) (snap : Snapshot) (primary : Option Pod) (ps : List Pod)
    → ActsOn (some snap) (plan_primary d snap primary ps)
unfolding plan_primary
plan_primary-ActsOn d snap none ps = tt
plan_primary-ActsOn d snap (some p) [] = tt
plan_primary-ActsOn d snap (some p) (q ∷ ps) = plan_candidate-ActsOn snap p _

plan_pods-ActsOn :
    (d : Pass) (snap : Snapshot) (listed : Option (List Pod))
    → ActsOn (some snap) (plan_pods d snap listed)
unfolding plan_pods
plan_pods-ActsOn d snap none = tt
plan_pods-ActsOn d snap (some ps) = plan_primary-ActsOn d snap _ _

latched-ActsOn :
    (d : Pass) (snap : Snapshot) (r : Bool × Option FailoverLatch)
    → ActsOn (some snap) (plan_latched d snap r).0
unfolding plan_latched
latched-ActsOn d snap (true, left) = tt
latched-ActsOn d snap (false, left) = plan_pods-ActsOn d snap d.listed

choose-ActsOn :
    (o : Option Snapshot) (b : Bool) (x y : Plan × Option FailoverLatch)
    → ActsOn o x.0
    → ActsOn o y.0
    → ActsOn o (if b then x else y).0
choose-ActsOn o true x y hx hy = hx
choose-ActsOn o false x y hx hy = hy

plan_snapshot-ActsOn :
    (d : Pass) (latch : Option FailoverLatch) (o : Option Snapshot)
    → ActsOn o (plan_snapshot d latch o).0
unfolding plan_snapshot
plan_snapshot-ActsOn d latch none = tt
plan_snapshot-ActsOn d latch (some snap) =
    let read = failover_latch_active latch d.latch_now (snap.primary.addr, snap.primary.epoch) in
    let stale = snapshot_stale snap d.now max_rollout_snapshot_age in
    choose-ActsOn (some snap) (not (snap.present && snap.primary.quorum_ok)) (hold, latch)
      (if stale then (hold, latch) else plan_latched d snap read) tt
      (choose-ActsOn (some snap) stale (hold, latch) (plan_latched d snap read) tt
        (latched-ActsOn d snap read))

plan-ActsOn : (d : Pass) (latch : Option FailoverLatch) → ActsOn d.observer (plan d latch).0
unfolding plan
plan-ActsOn d latch =
    choose-ActsOn d.observer (state_code d.state == state_code rollout_primary)
      (plan_snapshot d latch d.observer) (hold, latch) (plan_snapshot-ActsOn d latch d.observer) tt

-- When the hand-off of a pass ends by itself.
abbrev pub deadline_of : Pass → Time
deadline_of d = time_add d.dispatch_now latch_ttl

effects-Fenced :
    (k : ℕ) (d : Pass) (p : Plan) (snap : Snapshot) (w : World)
    → ActsOn d.observer p
    → d.observer ≡ some snap
    → w.in_flight ≡ false
    → Fenced snap (deadline_of d) (perform k (effects_of d p) w)
unfolding effects_of hand_off starts
effects-Fenced k d hold snap w acts seen calm =
    still snap (deadline_of d) d.cooldown_now d.calls k [] w refl calm
effects-Fenced k d no_suitable_replica snap w acts seen calm =
    still snap (deadline_of d) d.cooldown_now d.calls k [] w refl calm
effects-Fenced k d (go s primary candidate) snap w acts seen calm =
    let same : s ≡ snap = ground (arith, acts, seen) in
    rw same (persist-Fenced snap (deadline_of d) _ d.calls d.calls.persisted k w calm)

-- Wherever a dispatch is cut off, a failover runs only when the old primary has lost its label and the
-- marker of this snapshot is stored.
pub dispatch-Fenced :
    (k : ℕ) (d : Pass) (w : World) (snap : Snapshot)
    → d.observer ≡ some snap
    → w.in_flight ≡ false
    → Fenced snap (deadline_of d) (dispatch k d w)
unfolding dispatch
dispatch-Fenced k d w snap seen calm =
    effects-Fenced k d (plan d w.latch).0 snap _ (plan-ActsOn d w.latch) seen calm

-- What the restarted operator sees is no newer primary: no address, the old one, or another one with an
-- older epoch.
abbrev pub StillOld : Snapshot → String × ℤ → Type 0
StillOld snap (addr, epoch) =
    (addr ≡ "")
    ⊎ ((addr ≡ snap.primary.addr) ⊎ ((pos 0 <ℤ snap.primary.epoch) × (epoch <ℤ snap.primary.epoch)))
