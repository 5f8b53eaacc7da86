-- ===== src/SqAggregate/Majority.antt =====
-- The verdict of the aggregation against the records themselves.
use velkir.Prelude.{
  sym, ℕ, ◌*◌, ◌≤◌, ◌<◌, ◌≡◌, ◌≢◌, ◌↔◌, ◌∙◌, true, ◌&&◌, List, [], ◌∷◌, Option, none, some, String,
  arith, Permᴰ, sym, eq_iff, count_if,
}
use velkir.Prelude.Int.{ℤ}
use velkir.Prelude.Time.{Time, Duration}
use velkir.Prelude.Search.{first_of_list, first_of_list-perm}
use velkir.SqAggregate.Votes.{
  votes_for, total, Distinct, votes_pod, tally_from-votes, tally_from-count, tally_from-counts,
}
use velkir.SqAggregate.{
  reports_reachable, SentinelQuorumStatus, Result, Votes, tally, has_majority, some_pod,
  majority_pod, aggregate, is_fresh, empty_tally,
}

votes_for-le-total : (pod : String) (vs : Votes) → votes_for pod vs ≤ total vs
unfolding votes_for total
votes_for-le-total pod [] = omega arith
votes_for-le-total pod ((k, n) ∷ vs) = ground (arith, votes_for-le-total pod vs)

majority_pod_sound :
    (fresh : ℕ) (vs : Votes) (pod : String)
    → Distinct vs
    → majority_pod fresh vs ≡ some pod
    → fresh < votes_for pod vs * 2
unfolding majority_pod first_of_list has_majority votes_for
majority_pod_sound fresh [] pod d h = cc
majority_pod_sound fresh ((k, n) ∷ vs) pod d h =
    ground (arith, eq_iff k pod, majority_pod_sound fresh vs pod d.1)

majority_pod_complete :
    (fresh : ℕ) (vs : Votes) (pod : String)
    → total vs ≤ fresh
    → fresh < votes_for pod vs * 2
    → majority_pod fresh vs ≡ some pod
unfolding majority_pod first_of_list has_majority votes_for total
majority_pod_complete fresh [] pod h m = absurd (omega arith)
majority_pod_complete fresh ((k, n) ∷ vs) pod h m =
    ground (arith, eq_iff k pod, votes_for-le-total pod vs, majority_pod_complete fresh vs pod)

no_majority : (fresh : ℕ) (vs : Votes) → total vs * 2 ≤ fresh → count_if (has_majority fresh) vs ≤ 0
unfolding total has_majority
no_majority fresh [] h = omega arith
no_majority fresh ((k, n) ∷ vs) h = ground (arith, no_majority fresh vs)

one_majority : (fresh : ℕ) (vs : Votes) → total vs ≤ fresh → count_if (has_majority fresh) vs ≤ 1
unfolding total has_majority
one_majority fresh [] h = omega arith
one_majority fresh ((k, n) ∷ vs) h = ground (arith, one_majority fresh vs, no_majority fresh vs)

-- Every order of the entries finds the same pod.
majority_pod-perm :
    (fresh : ℕ) {vs ws : Votes}
    → Permᴰ vs ws
    → total vs ≤ fresh
    → majority_pod fresh ws ≡ majority_pod fresh vs
unfolding majority_pod
majority_pod-perm fresh {vs} {ws} p h =
    sym (first_of_list-perm (has_majority fresh) some_pod none p (one_majority fresh vs h))

module _ (order : Votes → Votes) (permutes : (vs : Votes) → Permᴰ vs (order vs)) (now : Time)
    (window : Duration) (quorum : ℤ) (sqs : List SentinelQuorumStatus) where
  abbrev verdict : Result
  verdict = aggregate order now window quorum sqs

  tally-votes :
      Distinct (tally now window sqs).votes
      × (total (tally now window sqs).votes ≤ (tally now window sqs).fresh)
  unfolding tally total votes_for
  tally-votes = tally_from-votes now window empty_tally sqs tt (omega arith)

  tally-fresh : (tally now window sqs).fresh ≡ count_if (is_fresh now window) sqs
  unfolding tally
  tally-fresh = omega (arith, tally_from-counts now window empty_tally sqs)

  -- The fresh records that reach a quorum.
  abbrev reaching : ℕ
  reaching = count_if (λ st. is_fresh now window st && reports_reachable st.quorum_reachable) sqs

  tally-count :
      (pod : String)
      → pod ≢ ""
      → votes_for pod (tally now window sqs).votes ≡ count_if (votes_pod now window pod) sqs
  unfolding tally votes_for
  tally-count pod h =
      omega (arith, tally_from-count now window empty_tally sqs pod (ground (arith, eq_iff "" pod)))

  -- The aggregation does not depend on the order in which the map is read.
  pub aggregate-order : verdict ≡ aggregate (λ vs. vs) now window quorum sqs
  unfolding aggregate
  aggregate-order = rw (
      majority_pod-perm (tally now window sqs).fresh (permutes (tally now window sqs).votes)
        (tally-votes.1))

  winner : Option String
  winner = majority_pod (tally now window sqs).fresh (order (tally now window sqs).votes)

  winner_iff :
      (pod : String)
      → pod ≢ ""
      → (winner ≡ some pod)
        ↔ (count_if (is_fresh now window) sqs < count_if (votes_pod now window pod) sqs * 2)
  unfolding winner
  winner_iff pod named =
      let same =
        majority_pod-perm (tally now window sqs).fresh (permutes (tally now window sqs).votes)
          (tally-votes.1) in
      (
        λ found.
            rw (← tally-fresh, ← tally-count pod named)
              (majority_pod_sound _ _ pod tally-votes.0 (sym same ∙ found)),
        λ more.
            same
            ∙ majority_pod_complete _ _ pod tally-votes.1
                (rw (tally-fresh, tally-count pod named) more),
      )

  -- A pod is confirmed as the primary exactly when more than half of the fresh records name it,
  -- whatever the order in which the map of votes is read.
  pub aggregate-majority :
      (pod : String)
      → pod ≢ ""
      → ((verdict.primary_confirmed ≡ true) × (verdict.primary_pod ≡ pod))
        ↔ (count_if (is_fresh now window) sqs < count_if (votes_pod now window pod) sqs * 2)
  unfolding aggregate winner
  aggregate-majority pod named = (
    λ h. (winner_iff pod named).0 (ground (arith, h.0, h.1)),
    λ more. (
      ground (arith, (winner_iff pod named).1 more),
      ground (arith, (winner_iff pod named).1 more),
    ),
  )
