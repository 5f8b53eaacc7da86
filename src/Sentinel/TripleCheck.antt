-- ===== src/Sentinel/TripleCheck.antt =====
-- internal/sentinel/triplecheck.go: whether the operator may start a failover. The detail texts are
-- left out; the reason names the refusal.
pub mod Decision
use velkir.Prelude.{ℕ, Bool, true, false, not, ◌&&◌, ◌||◌, String, count_if, if◌then◌else◌}
use velkir.Prelude.Int.{ℤ, pos, ◌-ℤ◌, ltb_ℤ, leb_ℤ, eq_ℤ}
use velkir.Prelude.Time.{Time, Duration, time_sub, is_zero, after}
use velkir.Sentinel.Types.{Snapshot, StampMap}

pub data Reason : Type 0 where
  none_blocks no_snapshot no_quorum no_odown_consensus pod_ready stale_snapshot : Reason

pub record Inputs : Type 0 where
  pub snapshot : Snapshot
  pub pod_is_ready : Bool
  pub quorum : ℤ
  pub odown_staleness : Duration
  pub max_snapshot_age : Duration
  pub now : Time

pub record FailoverDecision : Type 0 where
  pub allow : Bool
  pub reason : Reason

abbrev pub refuse : Reason → FailoverDecision
refuse r = record { allow = false; reason = r }

abbrev pub permit : FailoverDecision
permit = record { allow = true; reason = Reason.none_blocks }

-- The two loops of `ConsensusODown` over the map, whose order does not matter to a count.
unfoldable pub is_stamped : String × Time → Bool
is_stamped (name, t) = not (is_zero t)

unfoldable pub is_recent : Time → String × Time → Bool
is_recent cutoff (name, t) = not (is_zero t) && (after t cutoff || eq_ℤ t cutoff)

unfoldable pub consensus_odown : StampMap → Time → Duration → ℕ
consensus_odown odown now staleness =
    if leb_ℤ staleness (pos 0)
    then count_if is_stamped odown
    else count_if (is_recent (now -ℤ staleness)) odown

unfoldable pub evaluate_triple_check : Inputs → FailoverDecision
evaluate_triple_check i =
    if not i.snapshot.present
    then refuse Reason.no_snapshot
    else if ltb_ℤ (pos 0) i.max_snapshot_age
        && ltb_ℤ i.max_snapshot_age (time_sub i.now i.snapshot.primary.updated_at)
    then refuse Reason.stale_snapshot
    else if not i.snapshot.primary.quorum_ok
    then refuse Reason.no_quorum
    else if ltb_ℤ (pos (consensus_odown i.snapshot.primary.odown i.now i.odown_staleness)) i.quorum
    then refuse Reason.no_odown_consensus
    else if i.pod_is_ready
    then refuse Reason.pod_ready
    else permit
