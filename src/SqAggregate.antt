-- ===== src/SqAggregate.antt =====
-- internal/sqaggregate/aggregate.go: the merge of the per-sentinel records into one verdict.
-- Go ranges over a map in no fixed order: `order` is the order that a run happens to take.
pub mod Votes
pub mod Majority
use velkir.Prelude.{
  ℕ, ◌+◌, ◌*◌, Bool, true, false, not, List, [], ◌∷◌, Option, none, some, String, str_eq, ltb, ◌==◌,
  if◌then◌else◌,
}
use velkir.Prelude.Int.{ℤ, pos, ltb_ℤ}
use velkir.Prelude.Time.{Time, Duration, time_sub, is_zero}
use velkir.Prelude.Search.{first_of_list}
use velkir.Sentinel.Types.{QuorumStatus}

-- The status of one SentinelQuorum record; a nil pointer is `none`.
pub record SentinelQuorumStatus : Type 0 where
  pub last_observed_time : Option Time
  pub observed_primary : String
  pub quorum_reachable : Option Bool

pub record Result : Type 0 where
  pub primary_pod : String
  pub primary_confirmed : Bool
  pub quorum_lost : Bool
  pub quorum : QuorumStatus
  pub fresh_count : ℕ
  pub stale_count : ℕ

abbrev pub Votes : Type 0
Votes = List (String × ℕ)

-- `votes[pod]++`.
pub bump : String → Votes → Votes
bump pod [] = (pod, 1) ∷ []
bump pod ((k, n) ∷ vs) = if str_eq k pod then (k, n + 1) ∷ vs else (k, n) ∷ bump pod vs

-- The locals of the loop.
pub record Tally : Type 0 where
  pub fresh : ℕ
  pub stale : ℕ
  pub votes : Votes
  pub quorum_oks : ℕ

-- Whether a record passes the freshness gate.
unfoldable pub is_fresh : Time → Duration → SentinelQuorumStatus → Bool
is_fresh now window st = elim st.last_observed_time [
  | none ↦ false
  | some t ↦ if is_zero t then false else not (ltb_ℤ window (time_sub now t))
]

abbrev pub reports_reachable : Option Bool → Bool
reports_reachable none = false
reports_reachable (some b) = b

-- One round of the loop over the records.
pub tally_one : Time → Duration → Tally → SentinelQuorumStatus → Tally
tally_one now window t st =
    if is_fresh now window st
    then record t {
      fresh = t.fresh + 1;
      votes = if str_eq st.observed_primary "" then t.votes else bump st.observed_primary t.votes;
      quorum_oks = if reports_reachable st.quorum_reachable then t.quorum_oks + 1 else t.quorum_oks;
    }
    else record t { stale = t.stale + 1 }

pub tally_from : Time → Duration → Tally → List SentinelQuorumStatus → Tally
tally_from now window t [] = t
tally_from now window t (st ∷ sts) = tally_from now window (tally_one now window t st) sts

abbrev pub empty_tally : Tally
empty_tally = record { fresh = 0; stale = 0; votes = []; quorum_oks = 0 }

pub tally : Time → Duration → List SentinelQuorumStatus → Tally
tally now window sqs = tally_from now window empty_tally sqs

-- Whether an entry of the map has more than half of the fresh records.
unfoldable pub has_majority : ℕ → String × ℕ → Bool
has_majority fresh (pod, count) = ltb fresh (count * 2)

abbrev pub some_pod : String × ℕ → Option String
some_pod (pod, count) = some pod

-- The loop over the map, which stops at the first entry with a majority.
unfoldable pub majority_pod : ℕ → Votes → Option String
majority_pod fresh vs = first_of_list (has_majority fresh) some_pod none vs

-- The switch on the tri-state quorum.
pub quorum_verdict : List SentinelQuorumStatus → Tally → ℤ → QuorumStatus
quorum_verdict [] t quorum = QuorumStatus.unknown
quorum_verdict (st ∷ sts) t quorum =
    if t.fresh == 0
    then QuorumStatus.lost
    else if ltb_ℤ (pos t.quorum_oks) quorum
    then QuorumStatus.lost
    else QuorumStatus.reachable

abbrev pub is_lost : QuorumStatus → Bool
is_lost QuorumStatus.lost = true
is_lost _ = false

abbrev pub pod_or_empty : Option String → String
pod_or_empty none = ""
pod_or_empty (some pod) = pod

abbrev pub is_some : Option String → Bool
is_some none = false
is_some (some pod) = true

pub aggregate : (Votes → Votes) → Time → Duration → ℤ → List SentinelQuorumStatus → Result
aggregate order now window quorum sqs =
    let t = tally now window sqs in
    let pod = majority_pod t.fresh (order t.votes) in
    let q = quorum_verdict sqs t quorum in
    record {
      primary_pod = pod_or_empty pod;
      primary_confirmed = is_some pod;
      quorum_lost = is_lost q;
      quorum = q;
      fresh_count = t.fresh;
      stale_count = t.stale;
    }
