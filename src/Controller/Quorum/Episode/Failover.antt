-- ===== src/Controller/Quorum/Episode/Failover.antt =====
-- No pass observes a completed failover.
use velkir.Prelude.{sym, ◌∙◌, List, ◌≡◌, refl, Bool, true, false, none, String, arith}
use velkir.Prelude.Time.{Time}
use velkir.Sentinel.Types.{QuorumStatus, Snapshot}
use velkir.Sentinel.Observer.{Observer, is_reachable}
use velkir.Sentinel.Observer.Runs.{Happening, observe, observe-Follows}
use velkir.Controller.Quorum.{CrQuorumState, QuorumSuppressionTunables}
use velkir.Controller.Quorum.Episode.{
  update_split_brain_sustained, observe_failover_if_addr_changed, update_quorum_suppression_gate,
}

no_episode_observed :
    (present quorum_ok : Bool) (addr : String) (now : Time) (st : CrQuorumState)
    → (present ≡ true → quorum_ok ≡ true → st.split_brain_since ≡ none)
    → (observe_failover_if_addr_changed present quorum_ok addr now st).1 ≡ none
unfolding observe_failover_if_addr_changed
no_episode_observed true true addr now st e = ground (arith, e refl refl)
no_episode_observed true false addr now st e = refl
no_episode_observed false quorum_ok addr now st e = refl

-- A snapshot with a quorum ends the episode before the failover is looked for.
reachable_resets :
    (present : Bool) (q : QuorumStatus) (polled_at now : Time) (st : CrQuorumState)
    → q ≡ QuorumStatus.reachable
    → (update_split_brain_sustained present
        (record { quorum = q; polled_at = polled_at; now = now })
        st).state.split_brain_since
      ≡ none
unfolding update_split_brain_sustained
reachable_resets false q polled_at now st e = refl
reachable_resets true QuorumStatus.reachable polled_at now st e = refl
reachable_resets true QuorumStatus.unknown polled_at now st e = cc
reachable_resets true QuorumStatus.lost polled_at now st e = cc

reachable_of : (q : QuorumStatus) → is_reachable q ≡ true → q ≡ QuorumStatus.reachable
reachable_of QuorumStatus.reachable h = refl
reachable_of QuorumStatus.unknown h = cc
reachable_of QuorumStatus.lost h = cc

-- Where the flag of the snapshot agrees with its quorum signal.
gate_failover :
    (t : QuorumSuppressionTunables) (snap : Snapshot) (now : Time) (st : CrQuorumState)
    → (snap.primary.quorum_ok ≡ true → snap.primary.quorum ≡ QuorumStatus.reachable)
    → (update_quorum_suppression_gate t snap now st).failover ≡ none
unfolding update_quorum_suppression_gate
gate_failover t snap now st agrees =
    no_episode_observed snap.present snap.primary.quorum_ok snap.primary.addr now _ (λ _ ok.
      reachable_resets snap.present snap.primary.quorum snap.primary.last_polled_at now st
        (agrees ok))

-- No pass observes a completed failover: from an observer whose flag says what its quorum status says,
-- whatever frames and polls it has met, and whatever the state of the tracker is, the pass over what the
-- observer publishes ends the episode that the observation needs before it looks for the failover.
pub gate_failover-observe :
    (t : QuorumSuppressionTunables) (master : String) (hs : List Happening) (o : Observer)
    (now : Time) (st : CrQuorumState)
    → o.published.quorum_ok ≡ is_reachable o.published.quorum
    → (update_quorum_suppression_gate t
        (record { present = true; primary = (observe master hs o).published })
        now
        st).failover
      ≡ none
gate_failover-observe t master hs o now st c =
    gate_failover t (record { present = true; primary = (observe master hs o).published }) now st
      (λ ok.
        reachable_of (observe master hs o).published.quorum
          (sym (observe-Follows master hs o c).0 ∙ ok))
