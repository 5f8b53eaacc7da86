-- ===== src/Examples/Observer.antt =====
-- internal/sentinel/observer.go and the tracker that reads it: concrete polls and frames.
use velkir.Prelude.{◌≡◌, refl, true, false, List, [], ◌∷◌, none, some, String, arith}
use velkir.Prelude.Int.{pos}
use velkir.Prelude.Time.{zero_time}
use velkir.Sentinel.Types.{QuorumStatus, Source}
use velkir.Sentinel.Observer as Watch
use velkir.Sentinel.Observer.{
  Observer, Answer, Polled, poll_once, switch_master, other_kind, addr_count, winner_of,
  is_reachable,
}
use velkir.Sentinel.Observer.Agreement.{Agreed, poll-Agreed}
use velkir.Sentinel.Observer.Runs.{Happening, frame, poll, observe}
use velkir.Controller.Quorum.{CrQuorumState, new_state}
use velkir.Controller.Quorum.Episode.{update_quorum_suppression_gate}
use velkir.Controller.Quorum.Episode.Failover.{gate_failover-observe}

abbrev blank : Observer
blank = record {
  published = record {
    addr = "";
    epoch = pos 0;
    quorum = QuorumStatus.unknown;
    quorum_ok = false;
    updated_at = zero_time;
    last_polled_at = zero_time;
    source = Source.poll;
    odown = [];
    odown_pull = [];
  };
  odown = [];
  odown_pull = [];
}

abbrev naming : String → Answer
naming addr = record { addr = addr; epoch = pos 3; quorum_ok = true; odown = some false }

-- Two of three sentinels name the first address, and one the second.
abbrev answers : List Polled
answers =
    ("s-0", some (naming "10.0.0.1:6379"))
    ∷ ("s-1", some (naming "10.0.0.2:6379"))
    ∷ ("s-2", some (naming "10.0.0.1:6379"))
    ∷ []

poll-Agreed_example : Agreed answers (poll_once (λ m. m) (pos 100) answers blank).published.addr
unfolding poll_once Watch.publish_poll Watch.reachable_count Watch.quorum_threshold
    Watch.quorum_votes winner_of addr_count Watch.count_vote Watch.stand Watch.publish_locked
poll-Agreed_example = poll-Agreed (λ m. m) (pos 100) answers blank (omega arith) refl

-- A poll, a switch of the master that follows it, and a frame of no interest.
abbrev met : List Happening
met =
    frame (pos 130) "s-1" other_kind
    ∷ frame (pos 120) "s-0" (
        switch_master (
          some
            (record { master_name = "a"; old_addr = "10.0.0.1:6379"; new_addr = "10.0.0.2:6379" })))
    ∷ poll (λ m. m) (pos 100) answers
    ∷ []

abbrev split : CrQuorumState
split = record new_state {
  split_brain_since = some (pos 50);
  split_brain_poll_at = pos 40;
  split_brain_confirmed_at = pos 50;
  last_ok_addr = "10.0.0.1:6379";
}

gate_failover-observe_example :
    (update_quorum_suppression_gate
      (record { loss_threshold = pos 0; recovery_polls = pos 0 })
      (record { present = true; primary = (observe "a" met blank).published })
      (pos 140)
      split).failover
    ≡ none
gate_failover-observe_example =
    gate_failover-observe (record { loss_threshold = pos 0; recovery_polls = pos 0 }) "a" met blank
      (pos 140) split refl
