-- ===== src/Examples/Quorum.antt =====
-- internal/controller, the gate of the quorum and the probes of the master: concrete histories.
use velkir.Controller.Quorum.MasterInfo
use velkir.Prelude.{◌≡◌, refl, Bool, true, false, List, [], ◌∷◌, some, arith}
use velkir.Prelude.Int.{pos, ◌-ℤ◌}
use velkir.Prelude.Time.{Time, time_sub}
use velkir.Sentinel.Types.{QuorumStatus, Snapshot, Source}
use velkir.Controller.Quorum
use velkir.Controller.Quorum.{
  Reading, QuorumSuppressionTunables, new_state, update_quorum_suppression, CrQuorumState,
}
use velkir.Controller.Quorum.Gate.{Confirmed, Recovered, state_after, update-entered, update-exited}
use velkir.Controller.Quorum.Recovery.{gate_opens}
use MasterInfo.{master_lost_from_timeout}
use velkir.Controller.Quorum.MasterInfo.Lost.{probed, master_lost-probed}

abbrev tunables : QuorumSuppressionTunables
tunables = record { loss_threshold = pos 0; recovery_polls = pos 0 }

abbrev reading : QuorumStatus → Time → Time → Reading
reading q poll now = record { quorum = q; polled_at = poll; now = now }

-- The quorum is lost, and seventy seconds later still.
abbrev first_loss : Reading
first_loss = reading QuorumStatus.lost (pos 1) (pos 1_000_000_000)

abbrev second_loss : Reading
second_loss = reading QuorumStatus.lost (pos 2) (pos 71_000_000_000)

abbrev first_ok : Reading
first_ok = reading QuorumStatus.reachable (pos 3) (pos 80_000_000_000)

abbrev second_ok : Reading
second_ok = reading QuorumStatus.reachable (pos 4) (pos 90_000_000_000)

update-entered_example : Confirmed tunables second_loss (first_loss ∷ [])
unfolding update_quorum_suppression Quorum.on_quorum Quorum.on_quorum_lost state_after
    Quorum.on_loss Quorum.effective_loss_threshold time_sub ◌-ℤ◌
update-entered_example = update-entered tunables second_loss (first_loss ∷ []) refl

update-exited_example : Recovered tunables second_ok (first_ok ∷ second_loss ∷ first_loss ∷ [])
unfolding update_quorum_suppression Quorum.on_quorum Quorum.on_quorum_ok state_after
    Quorum.on_quorum_lost Quorum.on_loss Quorum.effective_loss_threshold time_sub ◌-ℤ◌
    Quorum.count_poll Quorum.effective_recovery_polls
update-exited_example =
    update-exited tunables second_ok (first_ok ∷ second_loss ∷ first_loss ∷ []) refl

gate_opens_example :
    (state_after tunables (second_ok ∷ first_ok ∷ second_loss ∷ first_loss ∷ [])).suppression_active
    ≡ false
unfolding state_after update_quorum_suppression Quorum.on_quorum Quorum.on_quorum_lost
    Quorum.on_loss Quorum.effective_loss_threshold time_sub ◌-ℤ◌ Quorum.effective_recovery_polls
gate_opens_example =
    gate_opens tunables (second_loss ∷ first_loss ∷ []) (second_ok ∷ first_ok ∷ [])
      (refl, omega arith, (refl, omega arith, tt)) (omega arith)

-- A failover moved the primary: the quorum was lost, and agrees on another address.
abbrev moved : Snapshot
moved = record {
  present = true;
  primary = record {
    addr = "10.0.0.7:6379";
    epoch = pos 4;
    quorum = QuorumStatus.reachable;
    quorum_ok = true;
    updated_at = pos 5_000_000_000;
    last_polled_at = pos 5_000_000_000;
    source = Source.poll;
    odown = [];
    odown_pull = [];
  };
}

abbrev split : CrQuorumState
split = record new_state {
  split_brain_since = some (pos 1_000_000_000);
  split_brain_poll_at = pos 1;
  split_brain_confirmed_at = pos 1_000_000_000;
  last_ok_addr = "10.0.0.5:6379";
}

abbrev failing : List (Bool × Time)
failing =
    (false, pos 40_000_000_000) ∷ (false, pos 20_000_000_000) ∷ (true, pos 10_000_000_000) ∷ []

master_lost-probed_example :
    master_lost_from_timeout
      (probed failing).master_info_timeout_since
      (probed failing).master_info_observed_at
      (pos 5000)
      (pos 41_000_000_000)
    ≡ true
unfolding time_sub ◌-ℤ◌ MasterInfo.milliseconds
master_lost-probed_example =
    (master_lost-probed failing (pos 5000) (pos 41_000_000_000)).1
      (pos 20_000_000_000, refl, omega arith, refl, omega arith, omega arith)
