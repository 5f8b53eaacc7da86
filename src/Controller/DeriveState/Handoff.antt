-- ===== src/Controller/DeriveState/Handoff.antt =====
-- When the observation leads to the hand-off of the primary.
use velkir.Prelude.{
  ◌∙◌, sym, ◌≡◌, ◌≢◌, ◌↔◌, refl, true, false, ◌&&◌, ◌||◌, List, [], ◌∷◌, Option, none, some, String,
  arith, all, any, count_if, length, and_iff,
}
use velkir.Prelude.Int.{pos, ◌-ℤ◌, eq_ℤ, max_ℤ}
use velkir.Prelude.Time.{Time}
use velkir.Sentinel.Types.{Snapshot}
use velkir.Orchestration.Machine.{rollout_primary}
use velkir.Controller.Pods.{Pod}
use velkir.Controller.Latch.{FailoverLatch, observed_addr_epoch, failover_latch_active}
use velkir.Controller.DeriveState.{
  ObservedFacts, derive_state_from_facts, empty_survey, at_target, survey, Resource,
  snapshot_quorum, seen_by, early_facts, facts_of, derive_with_sts, derive_facts, derive_state,
}
use velkir.Controller.DeriveState.Loop.{
  survey-replicas_at_target, survey-replica_count, survey-primary_at_target, marked_seen,
  survey-replicas_settled, survey-primary_seen, survey-any_replica, last_primary_seen,
  settled_replica, last_primary, is_replica, current_replica, is_current,
}

pub facts-primary :
    (f : ObservedFacts)
    → (derive_state_from_facts f ≡ rollout_primary) ↔ (
        (f.pod_count ≢ 0)
        × (f.is_standalone ≡ false)
        × (f.quorum_ok ≡ true)
        × (f.failover_in_flight ≡ false)
        × (f.all_pods_at_target_revision ≡ false)
        × (f.all_replicas_at_target_revision ≡ true)
        × (f.primary_at_target_revision ≡ false)
        × (f.replicas_ready_for_handoff ≡ true))
unfolding derive_state_from_facts
facts-primary f = (ground arith, ground arith)

-- The replicas are at the target revision and settled, and there are as many as the resource wants
-- beside the primary.
abbrev pub ReplicasDone : Resource → String → List Pod → Type 0
ReplicasDone v target pods =
    (all (current_replica target) pods ≡ true)
    × (all settled_replica pods ≡ true)
    × (eq_ℤ (pos (count_if is_replica pods)) (max_ℤ (v.replicas -ℤ pos 1) (pos 0)) ≡ true)

-- The primary is labelled, and the last pod with its label is not at the target revision.
abbrev pub PrimaryStale : String → List Pod → Type 0
PrimaryStale target pods =
    (p : Pod) × (last_primary none pods ≡ some p) × (at_target target p ≡ false)

every_pod_counts :
    (p : Pod) (ps : List Pod) → any (λ q. q.is_primary) (p ∷ ps) || any is_replica (p ∷ ps) ≡ true
every_pod_counts p ps = ground arith

no_replica_behind :
    (target : String) (ps : List Pod)
    → any is_replica ps ≡ false
    → all (current_replica target) ps ≡ true
no_replica_behind target [] h = refl
no_replica_behind target (p ∷ ps) h = ground (arith, no_replica_behind target ps)

-- The facts of a list of pods, field by field.
module _ (v : Resource) (f : ObservedFacts) (target : String) (pods : List Pod) where
  abbrev facts : ObservedFacts
  facts = facts_of v f pods (survey target empty_survey pods)

  facts-primary_current :
      facts.primary_at_target_revision
      ≡ any (λ p. p.is_primary) pods && is_current target (last_primary none pods)
  unfolding facts_of
  facts-primary_current = ground (
    arith,
    survey-primary_seen target empty_survey pods,
    survey-primary_at_target target empty_survey none pods refl,
  )

  facts-replicas_current : facts.all_replicas_at_target_revision ≡ all (current_replica target) pods
  unfolding facts_of
  facts-replicas_current = ground (
    arith,
    survey-any_replica target empty_survey pods,
    survey-replicas_at_target target empty_survey pods,
    no_replica_behind target pods,
  )

  facts-ready :
      facts.replicas_ready_for_handoff
      ≡ all settled_replica pods
        && eq_ℤ (pos (count_if is_replica pods)) (max_ℤ (v.replicas -ℤ pos 1) (pos 0))
  unfolding facts_of
  facts-ready = ground (
    arith,
    survey-replicas_settled target empty_survey pods,
    survey-replica_count target empty_survey pods,
  )

  facts-ReplicasDone :
      ((facts.all_replicas_at_target_revision ≡ true) × (facts.replicas_ready_for_handoff ≡ true))
      ↔ ReplicasDone v target pods
  facts-ReplicasDone =
      rw (facts-replicas_current, facts-ready)
        (
          λ (current, ready).
              let (settled, complete) = (and_iff (all settled_replica pods) _).0 ready in
              (current, settled, complete),
          λ (current, settled, complete).
              (current, (and_iff (all settled_replica pods) _).1 (settled, complete)),
        )

  facts-early :
      (facts.is_standalone ≡ f.is_standalone)
      × (facts.quorum_ok ≡ f.quorum_ok)
      × (facts.failover_in_flight ≡ f.failover_in_flight)
      × (facts.pod_count ≡ length pods)
      × (facts.all_pods_at_target_revision
          ≡ facts.primary_at_target_revision && facts.all_replicas_at_target_revision)
  unfolding facts_of
  facts-early = (refl, refl, refl, refl, refl)

stale_primary :
    (target : String) (pods : List Pod)
    → any (λ p. p.is_primary) pods ≡ true
    → is_current target (last_primary none pods) ≡ false
    → PrimaryStale target pods
stale_primary target pods seen behind =
    let (p, found) = last_primary_seen pods seen in (p, found, ground (arith, found, behind))

with_sts-primary :
    (v : Resource) (f : ObservedFacts) (pods : List Pod) (target : String)
    → f.pod_count ≡ 0
    → ((derive_with_sts v f pods target).0 ≡ rollout_primary) ↔ (
        (f.is_standalone ≡ false)
        × (f.quorum_ok ≡ true)
        × (f.failover_in_flight ≡ false)
        × PrimaryStale target pods
        × ReplicasDone v target pods)
unfolding derive_with_sts last_primary
with_sts-primary v f [] target none_yet =
    (λ h. absurd (((facts-primary f).0 h).0 none_yet), λ (_, _, _, (p, found, _), _). cc)
with_sts-primary v f (p ∷ ps) target none_yet = (
  λ h.
      let seen : any (λ x. x.is_primary) (p ∷ ps) ≡ true = ground (
        arith,
        h,
        every_pod_counts p ps,
        survey-primary_seen target empty_survey (p ∷ ps),
        survey-any_replica target empty_survey (p ∷ ps),
      ) in
      let (_, moving, agreed, calm, _, replicas, primary, done) =
        (facts-primary (facts v f target (p ∷ ps))).0
          (ground (arith, h, seen, survey-primary_seen target empty_survey (p ∷ ps))) in
      let (one, two, three, _, _) = facts-early v f target (p ∷ ps) in
      (
        sym one ∙ moving,
        sym two ∙ agreed,
        sym three ∙ calm,
        stale_primary target (p ∷ ps) seen
            (ground (arith, primary, seen, facts-primary_current v f target (p ∷ ps))),
        (facts-ReplicasDone v f target (p ∷ ps)).0 (replicas, done),
      ),
  λ (moving, agreed, calm, (q, found, behind), done).
      let (one, two, three, count, whole) = facts-early v f target (p ∷ ps) in
      let (current, ready) = (facts-ReplicasDone v f target (p ∷ ps)).1 done in
      let seen : any (λ x. x.is_primary) (p ∷ ps) ≡ true = marked_seen (p ∷ ps) q found in
      let old : (facts v f target (p ∷ ps)).primary_at_target_revision ≡ false =
        ground (arith, facts-primary_current v f target (p ∷ ps), found, behind) in
      let here = (facts-primary (facts v f target (p ∷ ps))).1 (
        λ e. omega (arith, e, count),
        one ∙ moving,
        two ∙ agreed,
        three ∙ calm,
        ground (arith, whole, old),
        current,
        old,
        ready,
      ) in
      ground (arith, here, seen, survey-primary_seen target empty_survey (p ∷ ps)),
)

derive_facts-primary :
    (v : Resource) (f : ObservedFacts) (pods : List Pod) (target : String)
    → f.pod_count ≡ 0
    → ((derive_facts v f pods (some target)).0 ≡ rollout_primary) ↔ (
        (f.is_standalone ≡ false)
        × (f.quorum_ok ≡ true)
        × (f.failover_in_flight ≡ false)
        × PrimaryStale target pods
        × ReplicasDone v target pods)
unfolding derive_facts
derive_facts-primary v f pods target none_yet = with_sts-primary v f pods target none_yet

-- A pass observes the hand-off of the primary exactly when the resource is not standalone, the
-- sentinels agree, no failover is in flight, the last pod labelled as the primary is not at the
-- target revision, and all the replicas that the resource wants are there, at the target and settled.
pub derive-hand_off :
    (now : Time) (v : Resource) (observer : Option Snapshot) (latch : Option FailoverLatch)
    (pods : List Pod) (target : String)
    → ((derive_state now v observer latch pods (some target)).0.0 ≡ rollout_primary) ↔ (
        (v.is_standalone ≡ false)
        × (snapshot_quorum (seen_by v observer) ≡ true)
        × ((failover_latch_active latch now (observed_addr_epoch (seen_by v observer))).0 ≡ false)
        × PrimaryStale target pods
        × ReplicasDone v target pods)
unfolding derive_state early_facts
derive-hand_off now v observer latch pods target = derive_facts-primary v _ pods target refl
