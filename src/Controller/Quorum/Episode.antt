-- ===== src/Controller/Quorum/Episode.antt =====
-- internal/controller/valkey_controller.go: the episode of a split brain, the observation of a completed
-- failover, and the pass that runs both with the gate.
pub mod Wedged
pub mod Failover
use velkir.Prelude.{true, false, not, ◌&&◌, ◌||◌, Option, none, some, String, str_eq, if◌then◌else◌}
use velkir.Prelude.Int.{pos, leb_ℤ}
use velkir.Prelude.Time.{Time, Duration, zero_time, is_zero, time_sub, after}
use velkir.Sentinel.Types.{QuorumStatus, Snapshot}
use velkir.Controller.Quorum.{
  Bool, CrQuorumState, Reading, QuorumSuppressionTunables, unmoved, update_quorum_suppression,
}

abbrev pub split_brain_confirmation_staleness : Duration
split_brain_confirmation_staleness = pos 60_000_000_000

unfoldable pub advance_split_brain_confirmation : Time → Time → CrQuorumState → CrQuorumState
advance_split_brain_confirmation polled_at now st =
    if after polled_at st.split_brain_poll_at
    then record st { split_brain_poll_at = polled_at; split_brain_confirmed_at = now }
    else st

-- The state, the reading of the gauge as a duration, and whether an episode started.
pub record Sustained : Type 0 where
  pub state : CrQuorumState
  pub elapsed : Duration
  pub episode_started : Bool

abbrev pub no_episode : CrQuorumState → Sustained
no_episode st = record { state = st; elapsed = pos 0; episode_started = false }

-- `splitBrainEpisodeExpired` with the reading after it, for an episode since this time.
unfoldable pub expire_or_read : Time → Time → CrQuorumState → Sustained
expire_or_read since now st =
    if leb_ℤ (time_sub now st.split_brain_confirmed_at) split_brain_confirmation_staleness
    then record {
      state = st;
      elapsed = time_sub st.split_brain_confirmed_at since;
      episode_started = false;
    }
    else no_episode (record st {
      split_brain_expired_poll_at = st.split_brain_poll_at;
      split_brain_since = none;
      split_brain_poll_at = zero_time;
      split_brain_confirmed_at = zero_time;
    })

unfoldable pub continue_episode : Time → Time → Time → CrQuorumState → Sustained
continue_episode since polled_at now st =
    expire_or_read since now (advance_split_brain_confirmation polled_at now st)

unfoldable pub start_episode : Time → Time → CrQuorumState → Sustained
start_episode polled_at now st =
    if not (is_zero st.split_brain_expired_poll_at)
      && not (after polled_at st.split_brain_expired_poll_at)
    then no_episode st
    else record {
      state = record st {
        split_brain_since = some now;
        split_brain_poll_at = polled_at;
        split_brain_confirmed_at = now;
      };
      elapsed = pos 0;
      episode_started = true;
    }

abbrev pub reset_episode : CrQuorumState → CrQuorumState
reset_episode st = record st {
  split_brain_since = none;
  split_brain_poll_at = zero_time;
  split_brain_confirmed_at = zero_time;
  split_brain_expired_poll_at = zero_time;
}

unfoldable pub update_split_brain_sustained : Bool → Reading → CrQuorumState → Sustained
update_split_brain_sustained false r st = no_episode (reset_episode st)
update_split_brain_sustained true r st = elim r.quorum [
  | QuorumStatus.unknown ↦ elim st.split_brain_since [
    | none ↦ no_episode st
    | some since ↦ continue_episode since r.polled_at r.now st
  ]
  | QuorumStatus.reachable ↦ no_episode (reset_episode st)
  | QuorumStatus.lost ↦ elim st.split_brain_since [
    | none ↦ start_episode r.polled_at r.now st
    | some since ↦ continue_episode since r.polled_at r.now st
  ]
]

-- The state, and the duration of a failover that was observed.
unfoldable pub observe_failover_if_addr_changed :
    Bool → Bool → String → Time → CrQuorumState → CrQuorumState × Option Duration
observe_failover_if_addr_changed present quorum_ok addr now st =
    if not present || not quorum_ok then (st, none) else elim st.split_brain_since [
      | none ↦ (record st { last_ok_addr = addr }, none)
      | some since ↦
          if str_eq st.last_ok_addr "" || str_eq st.last_ok_addr addr
          then (record st { last_ok_addr = addr }, none)
          else (record st { last_ok_addr = addr }, some (time_sub now since))
    ]

-- `updateQuorumSuppressionGate` under its lock: the episode, the failover, and the gate if a snapshot is
-- there.
pub record Gated : Type 0 where
  pub state : CrQuorumState
  pub episode_started : Bool
  pub failover : Option Duration
  pub just_entered : Bool
  pub just_exited : Bool

unfoldable pub update_quorum_suppression_gate :
    QuorumSuppressionTunables → Snapshot → Time → CrQuorumState → Gated
update_quorum_suppression_gate tunables snap now st =
    let r : Reading = record {
      quorum = snap.primary.quorum;
      polled_at = snap.primary.last_polled_at;
      now = now;
    } in
    let sustained = update_split_brain_sustained snap.present r st in
    let (observed, failover) =
      observe_failover_if_addr_changed snap.present snap.primary.quorum_ok snap.primary.addr now
        sustained.state in
    let gate =
      if snap.present then update_quorum_suppression tunables r observed else unmoved observed in
    record {
      state = gate.state;
      episode_started = sustained.episode_started;
      failover = failover;
      just_entered = gate.just_entered;
      just_exited = gate.just_exited;
    }
