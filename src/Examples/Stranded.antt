-- ===== src/Examples/Stranded.antt =====
-- internal/sentinel/manager.go: a concrete pass over three sentinels.
use velkir.Prelude.{
  ◌≤◌, ◌≡◌, refl, true, false, List, [], ◌∷◌, none, some, String, arith, str_eq, if◌then◌else◌, All,
  count_if,
}
use velkir.Prelude.Int.{pos, ◌-ℤ◌}
use velkir.Prelude.Time.{time_sub}
use velkir.Prelude.HostPort
use velkir.Sentinel.Live
use velkir.Sentinel.Observer as Watch
use velkir.Sentinel.SurgeryGuard
use velkir.Sentinel.Stranded
use velkir.Sentinel.Stranded.Ghosts
use velkir.Sentinel.Stranded.Recover
use velkir.Sentinel.Types.{Endpoint, Snapshot, QuorumStatus, Source}
use velkir.Controller.Wedge
use velkir.Controller.Wedge.{wedge_input, detect_and_recover_stranded_sentinels}
use velkir.Controller.Wedge.Quiet.{NoElection, detect-NoElection}
use velkir.Sentinel.SurgeryGuard.{codes, MasterRead, replied}
use velkir.Sentinel.Stranded.{
  PeersRead, peers, ProbeRead, probed, GhostHolder, live_sentinel_ip_set,
  classify_stranded_sentinels,
}
use velkir.Sentinel.Stranded.Ghosts.{select_ghost_reap_target}
use velkir.Sentinel.Stranded.Debounce.{ReapPass, seen_after, LongAbsent, HolderOf, reap-LongAbsent}
use velkir.Sentinel.Stranded.Recover.{to_reset, RecoveryInput, select, recover_stranded_sentinels}
use velkir.Sentinel.Stranded.Warrant.Removed.{Warranted, recover-Warranted}
use velkir.Sentinel.Stranded.Warrant.Sound.{is_sound, recover-one_sound}

abbrev at_pod : String → String → Endpoint
at_pod name addr = record { name = name; addr = addr }

-- The first was rebuilt, the second knows a ghost, and the third still monitors the old primary.
abbrev pool : List Endpoint
pool =
    at_pod "s-0" "10.1.0.1:26379"
    ∷ at_pod "s-1" "10.1.0.2:26379"
    ∷ at_pod "s-2" "10.1.0.3:26379"
    ∷ []

abbrev peers_read : Endpoint → PeersRead
peers_read ep =
    if str_eq ep.name "s-0"
    then peers []
    else if str_eq ep.name "s-1"
    then peers ("10.1.0.3" ∷ "10.1.0.9" ∷ [])
    else peers ("10.1.0.2" ∷ [])

abbrev probe_read : Endpoint → ProbeRead
probe_read ep =
    if str_eq ep.name "s-2"
    then probed "10.0.0.2:6379" (some (pos 2)) (codes "master")
    else probed "10.0.0.1:6379" (some (pos 5)) (codes "master")

abbrev quiet_read : Endpoint → MasterRead
quiet_read ep = replied (some (codes "master")) (some (pos 5))

abbrev wedged : RecoveryInput
wedged = record {
  endpoints = pool;
  master_ip = "10.0.0.1";
  skip_addrs = [];
  allow_ghost_reap = true;
  live_valkey_ips = "10.0.0.1" ∷ "10.0.0.2" ∷ [];
  allow_stale_repoint = true;
  deferred = false;
  bypass_deferral = false;
  now = pos 100_000_000_000;
  peers_of = peers_read;
  probe_of = probe_read;
  table_of = λ ep. none;
  master_answers = true;
  survivor_read = quiet_read;
  target_read = quiet_read;
  destination_read = quiet_read;
  remove_succeeds = λ ep. true;
}

abbrev holding_ghost : List GhostHolder
holding_ghost =
    record { endpoint = at_pod "s-1" "10.1.0.2:26379"; ghost_ips = "10.1.0.9" ∷ [] } ∷ []

abbrev live_sentinels : List String
live_sentinels = "10.1.0.1" ∷ "10.1.0.2" ∷ "10.1.0.3" ∷ []

-- An earlier pass that found the ghost too.
abbrev earlier : ReapPass
earlier = record { now = pos 60_000_000_000; holders = holding_ghost; live = live_sentinels }

abbrev latest : ReapPass
latest = record { now = pos 100_000_000_000; holders = holding_ghost; live = live_sentinels }

recover-Warranted_example :
    All
      (Warranted wedged (earlier ∷ []) (select wedged (seen_after (earlier ∷ []))).0.repoint)
      (recover_stranded_sentinels wedged (seen_after (earlier ∷ []))).0.removed
recover-Warranted_example = recover-Warranted wedged (earlier ∷ [])

recover-one_sound_example :
    count_if
      (is_sound wedged)
      (recover_stranded_sentinels wedged (seen_after (earlier ∷ []))).0.removed
    ≤ 1
recover-one_sound_example = recover-one_sound wedged (seen_after (earlier ∷ []))

reap-LongAbsent_example :
    (true ≡ true)
    × HolderOf
        (λ h. LongAbsent latest (earlier ∷ []) h.ghost_ips)
        (at_pod "s-1" "10.1.0.2:26379")
        holding_ghost
unfolding select_ghost_reap_target Ghosts.choose_reapable Ghosts.is_reapable Ghosts.seen_at
    Ghosts.refresh Ghosts.stamp_new Ghosts.detected Ghosts.prune seen_after Live.is_live time_sub
    ◌-ℤ◌ Ghosts.choose
reap-LongAbsent_example =
    reap-LongAbsent latest (earlier ∷ []) true (at_pod "s-1" "10.1.0.2:26379") refl

-- The snapshot names an address that is no live pod, and an old o_down stamp.
abbrev settled : Snapshot
settled = record {
  present = true;
  primary = record {
    addr = "10.0.0.9:6379";
    epoch = pos 5;
    quorum = QuorumStatus.reachable;
    quorum_ok = true;
    updated_at = pos 99_000_000_000;
    last_polled_at = pos 99_000_000_000;
    source = Source.poll;
    odown = ("s-1", pos 10_000_000_000) ∷ [];
    odown_pull = [];
  };
}

abbrev live_pods : List String
live_pods = "10.0.0.1" ∷ "10.0.0.2" ∷ []

wipes_ghost_holder :
    count_if
      (is_sound (wedge_input settled (pos 60_000) live_pods wedged))
      (detect_and_recover_stranded_sentinels settled
        (pos 60_000)
        live_pods
        wedged
        (seen_after (earlier ∷ []))).0.removed
    ≡ 1
unfolding detect_and_recover_stranded_sentinels wedge_input Wedge.ghost_reap_allowed
    Wedge.failover_ttl Wedge.any_fresh Wedge.repoint_class_armed Wedge.live_host
    recover_stranded_sentinels Recover.guarded Recover.to_reset Stranded.keep select
    classify_stranded_sentinels Stranded.classify_one Stranded.is_among Stranded.quorum_reachable
    Watch.quorum_threshold live_sentinel_ip_set HostPort.split_host_port HostPort.plain_host
    HostPort.cut HostPort.has Stranded.ghosts_among Live.is_live HostPort.after_bracket
    HostPort.bracketed_host ◌-ℤ◌ time_sub Live.replica_table_doomed Ghosts.choose
    Ghosts.choose_reapable Ghosts.detected Ghosts.is_reapable Ghosts.prune Ghosts.refresh
    Ghosts.seen_at select_ghost_reap_target Ghosts.stamp_new Recover.dropped_names
    Recover.electing_names Recover.ghost_step Recover.gossips Recover.kept_targets
    Recover.quiet_targets Recover.surgery Recover.to_monitor Recover.to_skip
    Recover.untouched_survivors seen_after Stranded.behind_frontier
    Stranded.classify_repoint_targets Stranded.classify_stale_epoch_targets Stranded.corpse_view
    Stranded.filter_repoints Stranded.frontier_of Stranded.join_frontier Stranded.monitored
    Stranded.select_repoint_targets Stranded.stale_if_allowed Stranded.stale_view
    SurgeryGuard.any_failover_in_progress SurgeryGuard.cohort_loop SurgeryGuard.contains
    SurgeryGuard.destination_cohort_quiet SurgeryGuard.flags_indicate_election
    SurgeryGuard.is_prefix SurgeryGuard.recheck_election_quiet
wipes_ghost_holder = refl

detect-NoElection_example : NoElection settled (pos 60_000) (pos 100_000_000_000)
detect-NoElection_example =
    detect-NoElection settled (pos 60_000) live_pods wedged (earlier ∷ [])
      (omega (arith, wipes_ghost_holder))
