-- ===== src/Examples/Verdicts.antt =====
-- internal/sentinel and internal/sqaggregate: the decisions at concrete observations.
use mathlib.Core.List.{Permᴰ}
use velkir.Prelude.{
  arith, ◌≡◌, refl, inl, Bool, true, false, List, [], ◌∷◌, Option, none, some, String,
}
use velkir.Prelude.Time.{time_sub}
use velkir.Prelude.Int.{pos, ◌-ℤ◌}
use velkir.Sentinel.Types.{Endpoint, QuorumStatus, Source}
use velkir.Sentinel.TripleCheck.{Inputs}
use velkir.Sentinel.SurgeryGuard.{
  contains, is_prefix, flags_indicate_election, MasterRead, replied, codes,
  destination_cohort_quiet,
}
use velkir.Sentinel.SurgeryGuard.Quiet.{at_frontier, destination_safe}
use velkir.SqAggregate.{SentinelQuorumStatus, Votes, aggregate, is_fresh}
use velkir.SqAggregate.Votes.{votes_pod}
use velkir.SqAggregate.Majority.{aggregate-majority}

-- A snapshot with two sentinels that see the primary down, of which one reported long ago.
abbrev down_inputs : Inputs
down_inputs = record {
  snapshot = record {
    present = true;
    primary = record {
      addr = "10.0.0.1:6379";
      epoch = pos 3;
      quorum = QuorumStatus.reachable;
      quorum_ok = true;
      updated_at = pos 9_000_000_000;
      last_polled_at = pos 9_000_000_000;
      source = Source.poll;
      odown = ("s0", pos 8_000_000_000) ∷ ("s1", pos 7_500_000_000) ∷ ("s2", pos 1_000_000) ∷ [];
      odown_pull = [];
    };
  };
  pod_is_ready = false;
  quorum = pos 2;
  odown_staleness = pos 5_000_000_000;
  max_snapshot_age = pos 3_000_000_000;
  now = pos 9_500_000_000;
}

abbrev cohort : List Endpoint
cohort =
    record { name = "s0"; addr = "10.0.1.1:26379" }
    ∷ record { name = "s1"; addr = "10.0.1.2:26379" }
    ∷ []

-- Both members answer without an election, and one of them lags behind by an epoch.
abbrev quiet_read : Endpoint → MasterRead
quiet_read ep = replied (some (codes "master")) (some (pos 4))

destination_safe_example : destination_cohort_quiet quiet_read cohort (pos 4) ≡ true
unfolding at_frontier flags_indicate_election contains is_prefix
destination_safe_example =
    (destination_safe quiet_read cohort (pos 4)).1 (λ e. cc, (refl, (refl, tt)), inl refl)

abbrev vote : String → Option Bool → SentinelQuorumStatus
vote pod reach = record {
  last_observed_time = some (pos 100);
  observed_primary = pod;
  quorum_reachable = reach;
}

-- Three fresh records, of which two name the same pod, and one that was never observed.
abbrev records : List SentinelQuorumStatus
records =
    vote "valkey-1" (some true)
    ∷ vote "valkey-0" none
    ∷ vote "valkey-1" (some true)
    ∷ record {
      last_observed_time = none;
      observed_primary = "valkey-2";
      quorum_reachable = some true;
    }
    ∷ []

-- An order of the map that exchanges its first two entries.
abbrev exchange : Votes → Votes
exchange (a ∷ b ∷ vs) = b ∷ a ∷ vs
exchange vs = vs

exchange-Perm : (vs : Votes) → Permᴰ vs (exchange vs)
exchange-Perm [] = Permᴰ.nil
exchange-Perm (a ∷ []) = Permᴰ.cons refl Permᴰ.nil
exchange-Perm (a ∷ b ∷ vs) = Permᴰ.swap refl refl

aggregate-majority_example :
    ((aggregate exchange (pos 110) (pos 30) (pos 2) records).primary_confirmed ≡ true)
    × ((aggregate exchange (pos 110) (pos 30) (pos 2) records).primary_pod ≡ "valkey-1")
unfolding votes_pod is_fresh time_sub ◌-ℤ◌
aggregate-majority_example =
    (aggregate-majority exchange exchange-Perm (pos 110) (pos 30) (pos 2) records "valkey-1"
        (λ e. cc)).1
      (omega arith)
