-- ===== src/Controller/Quorum.antt =====
-- internal/controller/valkey_controller.go, `crQuorumState` and its gate, which suppresses sentinel commands
-- while the quorum is lost. The mutex is left out: each method runs under it as one step.
pub mod Gate
pub mod Recovery
pub mod Episode
pub mod MasterInfo
use velkir.Prelude.{◌+◌, not, ◌&&◌, if◌then◌else◌, ℕ, Bool, true, false, Option, none, some, String}
use velkir.Prelude.Int.{ℤ, pos, ltb_ℤ, leb_ℤ}
use velkir.Prelude.Time.{Time, Duration, zero_time, time_sub, after}
use velkir.Sentinel.Types.{QuorumStatus}

pub record CrQuorumState : Type 0 where
  pub last_quorum : QuorumStatus
  pub quorum_lost_since : Option Time
  pub quorum_lost_since_poll : Time
  pub quorum_ok_consecutive_polls : ℕ
  pub quorum_ok_last_counted_poll : Time
  pub suppression_active : Bool
  pub split_brain_since : Option Time
  pub split_brain_poll_at : Time
  pub split_brain_confirmed_at : Time
  pub split_brain_expired_poll_at : Time
  pub last_ok_addr : String
  pub master_info_timeout_since : Option Time
  pub master_info_observed_at : Time

abbrev pub new_state : CrQuorumState
new_state = record {
  last_quorum = QuorumStatus.unknown;
  quorum_lost_since = none;
  quorum_lost_since_poll = zero_time;
  quorum_ok_consecutive_polls = 0;
  quorum_ok_last_counted_poll = zero_time;
  suppression_active = false;
  split_brain_since = none;
  split_brain_poll_at = zero_time;
  split_brain_confirmed_at = zero_time;
  split_brain_expired_poll_at = zero_time;
  last_ok_addr = "";
  master_info_timeout_since = none;
  master_info_observed_at = zero_time;
}

-- What a reconcile reads of the snapshot, and its clock.
pub record Reading : Type 0 where
  pub quorum : QuorumStatus
  pub polled_at : Time
  pub now : Time

pub record QuorumSuppressionTunables : Type 0 where
  pub loss_threshold : Duration
  pub recovery_polls : ℤ

unfoldable pub effective_loss_threshold : QuorumSuppressionTunables → Duration
effective_loss_threshold t =
    if ltb_ℤ (pos 0) t.loss_threshold then t.loss_threshold else pos 60_000_000_000

unfoldable pub effective_recovery_polls : QuorumSuppressionTunables → ℤ
effective_recovery_polls t = if ltb_ℤ (pos 0) t.recovery_polls then t.recovery_polls else pos 2

-- The state, and whether the gate was just entered or just left.
pub record Updated : Type 0 where
  pub state : CrQuorumState
  pub just_entered : Bool
  pub just_exited : Bool

abbrev pub unmoved : CrQuorumState → Updated
unmoved st = record { state = st; just_entered = false; just_exited = false }

-- A counted poll with a quorum.
unfoldable pub count_poll : QuorumSuppressionTunables → Time → CrQuorumState → Updated
count_poll tunables polled_at st =
    if leb_ℤ (effective_recovery_polls tunables) (pos (st.quorum_ok_consecutive_polls + 1))
    then record {
      state = record st {
        suppression_active = false;
        quorum_ok_consecutive_polls = 0;
        quorum_ok_last_counted_poll = zero_time;
      };
      just_entered = false;
      just_exited = true;
    }
    else unmoved (record st {
      quorum_ok_last_counted_poll = polled_at;
      quorum_ok_consecutive_polls = st.quorum_ok_consecutive_polls + 1;
    })

unfoldable pub on_quorum_ok : QuorumSuppressionTunables → Time → CrQuorumState → Updated
on_quorum_ok tunables polled_at st =
    let cleared = record st { quorum_lost_since = none; quorum_lost_since_poll = zero_time } in
    if not st.suppression_active
    then unmoved cleared
    else if not (after polled_at st.quorum_ok_last_counted_poll)
    then unmoved cleared
    else count_poll tunables polled_at cleared

-- A loss while the gate is not entered, with the stamp of its onset.
unfoldable pub on_loss : Option Time → QuorumSuppressionTunables → Reading → CrQuorumState → Updated
on_loss none tunables r st =
    unmoved (record st { quorum_lost_since = some r.now; quorum_lost_since_poll = r.polled_at })
on_loss (some since) tunables r st =
    if leb_ℤ (effective_loss_threshold tunables) (time_sub r.now since)
      && after r.polled_at st.quorum_lost_since_poll
    then record {
      state = record st { suppression_active = true };
      just_entered = true;
      just_exited = false;
    }
    else unmoved st

unfoldable pub on_quorum_lost : QuorumSuppressionTunables → Reading → CrQuorumState → Updated
on_quorum_lost tunables r st =
    let broken = record st {
      quorum_ok_consecutive_polls = 0;
      quorum_ok_last_counted_poll = zero_time;
    } in
    if st.suppression_active then unmoved broken else on_loss st.quorum_lost_since tunables r broken

unfoldable pub on_quorum :
    QuorumStatus → QuorumSuppressionTunables → Reading → CrQuorumState → Updated
on_quorum QuorumStatus.unknown tunables r st = unmoved st
on_quorum QuorumStatus.reachable tunables r st = on_quorum_ok tunables r.polled_at st
on_quorum QuorumStatus.lost tunables r st = on_quorum_lost tunables r st

unfoldable pub update_quorum_suppression :
    QuorumSuppressionTunables → Reading → CrQuorumState → Updated
update_quorum_suppression tunables r st =
    on_quorum r.quorum tunables r (record st { last_quorum = r.quorum })
