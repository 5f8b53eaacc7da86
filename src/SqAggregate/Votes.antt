-- ===== src/SqAggregate/Votes.antt =====
-- The map of votes that the loop over the records builds.
use velkir.Prelude.{
  ℕ, ◌+◌, ◌≤◌, ◌≡◌, refl, Bool, false, ◌&&◌, List, [], ◌∷◌, String, inl, inr, Bool-cases, arith,
  str_eq, eq_iff, length, count_if, if◌then◌else◌,
}
use velkir.Prelude.Time.{Time, Duration}
use velkir.SqAggregate.{
  SentinelQuorumStatus, Votes, bump, Tally, is_fresh, tally_one, tally_from, reports_reachable,
}

-- `votes[pod]`, which is 0 for a missing key.
unfoldable pub votes_for : String → Votes → ℕ
votes_for pod [] = 0
votes_for pod ((k, n) ∷ vs) = if str_eq k pod then n else votes_for pod vs

unfoldable pub total : Votes → ℕ
total [] = 0
total ((k, n) ∷ vs) = n + total vs

-- No key stands twice.
abbrev pub Distinct : Votes → Type 0
Distinct [] = Unit
Distinct ((k, n) ∷ vs) = (votes_for k vs ≡ 0) × Distinct vs

pub votes_for-bump :
    (pod j : String) (vs : Votes)
    → votes_for j (bump pod vs) ≡ votes_for j vs + (if str_eq pod j then 1 else 0)
unfolding votes_for bump
votes_for-bump pod j [] = ground arith
votes_for-bump pod j ((k, n) ∷ vs) =
    ground (arith, eq_iff k pod, eq_iff k j, eq_iff pod j, votes_for-bump pod j vs)

pub total-bump : (pod : String) (vs : Votes) → total (bump pod vs) ≡ total vs + 1
unfolding total bump
total-bump pod [] = ground arith
total-bump pod ((k, n) ∷ vs) = ground (arith, total-bump pod vs)

pub Distinct-bump : (pod : String) (vs : Votes) → Distinct vs → Distinct (bump pod vs)
unfolding bump votes_for
Distinct-bump pod [] d = (refl, tt)
Distinct-bump pod ((k, n) ∷ vs) d = elim (Bool-cases (str_eq k pod)) [
  | inl same ↦ rw same d
  | inr other ↦ rw other (
    ground (arith, votes_for-bump pod k vs, eq_iff k pod, eq_iff pod k),
    Distinct-bump pod vs d.1,
  )
]

-- Whether a record is a fresh vote for the pod.
unfoldable pub votes_pod : Time → Duration → String → SentinelQuorumStatus → Bool
votes_pod now window pod st = is_fresh now window st && str_eq st.observed_primary pod

module _ (now : Time) (window : Duration) where
  tally_one-votes :
      (t : Tally) (st : SentinelQuorumStatus) (pod : String)
      → str_eq "" pod ≡ false
      → votes_for pod (tally_one now window t st).votes
        ≡ votes_for pod t.votes + (if votes_pod now window pod st then 1 else 0)
  unfolding tally_one votes_pod
  tally_one-votes t st pod h = ground (
    arith,
    votes_for-bump st.observed_primary pod t.votes,
    eq_iff st.observed_primary pod,
    eq_iff st.observed_primary "",
    eq_iff "" pod,
  )

  tally_one-total :
      (t : Tally) (st : SentinelQuorumStatus)
      → total t.votes ≤ t.fresh
      → total (tally_one now window t st).votes ≤ (tally_one now window t st).fresh
  unfolding tally_one
  tally_one-total t st h = ground (arith, total-bump st.observed_primary t.votes)

  tally_one-Distinct :
      (t : Tally) (st : SentinelQuorumStatus)
      → Distinct t.votes
      → Distinct (tally_one now window t st).votes
  unfolding tally_one
  tally_one-Distinct t st d = elim (Bool-cases (is_fresh now window st)) [
    | inr old ↦ rw old d
    | inl new ↦ elim (Bool-cases (str_eq st.observed_primary "")) [
      | inl nobody ↦ rw (new, nobody) d
      | inr pod ↦ rw (new, pod) (Distinct-bump st.observed_primary t.votes d)
    ]
  ]

  -- What the loop keeps of the map: its keys are distinct, and its votes are no more than the fresh
  -- records.
  pub tally_from-votes :
      (t : Tally) (sqs : List SentinelQuorumStatus)
      → Distinct t.votes
      → total t.votes ≤ t.fresh
      → let u = tally_from now window t sqs in Distinct u.votes × (total u.votes ≤ u.fresh)
  unfolding tally_from
  tally_from-votes t [] d h = (d, h)
  tally_from-votes t (st ∷ sqs) d h =
      tally_from-votes (tally_one now window t st) sqs (tally_one-Distinct t st d)
        (tally_one-total t st h)

  -- The map counts, for each named pod, the fresh records that observe it.
  pub tally_from-count :
      (t : Tally) (sqs : List SentinelQuorumStatus) (pod : String)
      → str_eq "" pod ≡ false
      → votes_for pod (tally_from now window t sqs).votes
        ≡ votes_for pod t.votes + count_if (votes_pod now window pod) sqs
  unfolding tally_from
  tally_from-count t [] pod h = omega arith
  tally_from-count t (st ∷ sqs) pod h =
      ground
        (arith, tally_from-count (tally_one now window t st) sqs pod h, tally_one-votes t st pod h)

  tally_one-counts :
      (t : Tally) (st : SentinelQuorumStatus)
      → let u = tally_one now window t st in
        (u.fresh ≡ t.fresh + (if is_fresh now window st then 1 else 0))
        × (u.fresh + u.stale ≡ t.fresh + t.stale + 1)
        × (u.quorum_oks
            ≡ t.quorum_oks
              + (if is_fresh now window st && reports_reachable st.quorum_reachable then 1 else 0))
  unfolding tally_one
  tally_one-counts t st = (ground arith, ground arith, ground arith)

  -- The counters count the fresh records, the others, and the fresh ones that reach a quorum.
  pub tally_from-counts :
      (t : Tally) (sqs : List SentinelQuorumStatus)
      → let u = tally_from now window t sqs in
        (u.fresh ≡ t.fresh + count_if (is_fresh now window) sqs)
        × (u.fresh + u.stale ≡ t.fresh + t.stale + length sqs)
        × (u.quorum_oks
            ≡ t.quorum_oks
              + count_if
                  (λ st. is_fresh now window st && reports_reachable st.quorum_reachable)
                  sqs)
  unfolding tally_from
  tally_from-counts t [] = omega arith
  tally_from-counts t (st ∷ sqs) =
      let (f, n, q) = tally_from-counts (tally_one now window t st) sqs in
      let (f', n', q') = tally_one-counts t st in (ground arith, ground arith, ground arith)
