-- ===== src/Sentinel/Stranded/Recover.antt =====
-- internal/sentinel/manager.go, `RecoverStrandedSentinels` and `RunInitialReset`: which sentinels lose the
-- master's name and get it anew. The reads and the answers are parameters; each of the three reads of
-- SENTINEL MASTER is one of its own. Events, tuning and the password that is sent again are left out.
use velkir.Prelude.{
  Bool, true, false, not, ◌&&◌, ◌||◌, List, [], ◌∷◌, ◌++◌, map, Option, none, some, String, str_eq,
  if◌then◌else◌,
}
use velkir.Prelude.Time.{Time}
use velkir.Sentinel.Types.{Endpoint}
use velkir.Sentinel.Live.{ReplicaTable}
use velkir.Sentinel.SurgeryGuard.{
  MasterRead, any_failover_in_progress, recheck_election_quiet, destination_cohort_quiet,
}
use velkir.Sentinel.Stranded.{
  PeersRead, peers, ProbeRead, StrandedClassification, GhostHolder, is_empty,
  classify_stranded_sentinels, quorum_reachable, live_sentinel_ip_set, keep, RepointClassification,
  is_among, select_repoint_targets,
}
use velkir.Sentinel.Stranded.Ghosts.{Seen, select_ghost_reap_target}

-- What a pass is given, and what it reads.
pub record RecoveryInput : Type 0 where
  pub endpoints : List Endpoint
  pub master_ip : String
  pub skip_addrs : List String
  pub allow_ghost_reap : Bool
  pub live_valkey_ips : List String
  pub allow_stale_repoint : Bool
  pub deferred : Bool
  pub bypass_deferral : Bool
  pub now : Time
  pub peers_of : Endpoint → PeersRead
  pub probe_of : Endpoint → ProbeRead
  pub table_of : Endpoint → ReplicaTable
  pub master_answers : Bool
  pub survivor_read : Endpoint → MasterRead
  pub target_read : Endpoint → MasterRead
  pub destination_read : Endpoint → MasterRead
  pub remove_succeeds : Endpoint → Bool

-- The result, with the sentinels that REMOVE and MONITOR were sent to.
pub record RecoveryResult : Type 0 where
  pub stranded : List String
  pub empty_peer_stranded : List String
  pub skipped_stranded : List String
  pub repointed : List String
  pub stale_epoch_repointed : List String
  pub healthy : Bool
  pub probed : Bool
  pub removed : List Endpoint
  pub monitored : List Endpoint

abbrev pub nothing : RecoveryResult
nothing = record {
  stranded = [];
  empty_peer_stranded = [];
  skipped_stranded = [];
  repointed = [];
  stale_epoch_repointed = [];
  healthy = false;
  probed = false;
  removed = [];
  monitored = [];
}

abbrev pub names : List Endpoint → List String
names eps = map (λ ep. ep.name) eps

-- `partitionEmptyPeerClass`: the targets that are wiped, and those that are skipped.
unfoldable pub to_reset : List String → List Endpoint → List Endpoint
to_reset skip targets = keep (λ ep. not (is_among skip ep.addr)) targets

unfoldable pub to_skip : List String → List Endpoint → List Endpoint
to_skip skip targets = keep (λ ep. is_among skip ep.addr) targets

-- `untouchedSurvivors`.
unfoldable pub gossips : PeersRead → Bool
gossips (peers (ip ∷ ips)) = true
gossips _ = false

abbrev pub is_ghost_target : Option Endpoint → Endpoint → Bool
is_ghost_target none ep = false
is_ghost_target (some g) ep = str_eq ep.name g.name

unfoldable pub untouched_survivors :
    (Endpoint → PeersRead) → Option Endpoint → List String → List Endpoint → List Endpoint
untouched_survivors read ghost being_wiped endpoints =
    keep
      (λ ep.
        gossips (read ep) && not (is_ghost_target ghost ep) && not (is_among being_wiped ep.name))
      endpoints

-- `applyStaleTargetDrops`: the names of the stale targets that are no longer quiet.
unfoldable pub dropped_names : List Endpoint → List Endpoint → List String
dropped_names stale quiet = names (keep (λ ep. not (is_among (names quiet) ep.name)) stale)

-- `dropElectingStaleTargets`: those that stay, and the names of those that are dropped.
unfoldable pub quiet_targets : RecoveryInput → RepointClassification → List Endpoint
quiet_targets i c =
    let still = recheck_election_quiet i.target_read c.stale.stale_epoch in
    if not (is_empty still)
      && not (destination_cohort_quiet i.destination_read c.stale.cohort c.stale.agree_epoch)
    then []
    else still

unfoldable pub electing_names : RecoveryInput → RepointClassification → List String
electing_names i c =
    let stale = c.stale.stale_epoch in
    if is_empty stale then [] else dropped_names stale (quiet_targets i c)

-- What the pass has selected when it comes to the guards.
pub record Selection : Type 0 where
  pub classified : StrandedClassification
  pub repoint : RepointClassification
  pub ghost : Option Endpoint

abbrev pub reset_of : RecoveryInput → Selection → List Endpoint
reset_of i s =
    to_reset i.skip_addrs s.classified.targets
    ++ (s.repoint.dead_master ++ s.repoint.stale.stale_epoch)

abbrev pub wiped_of : RecoveryInput → Selection → List String
wiped_of i s =
    names s.classified.targets ++ (names s.repoint.dead_master ++ names s.repoint.stale.stale_epoch)

abbrev pub reported : RecoveryInput → Selection → RecoveryResult
reported i s = record nothing {
  stranded = names (to_reset i.skip_addrs s.classified.targets);
  empty_peer_stranded = names (to_reset i.skip_addrs s.classified.targets);
  skipped_stranded = names (to_skip i.skip_addrs s.classified.targets);
  repointed = names s.repoint.dead_master;
  stale_epoch_repointed = names s.repoint.stale.stale_epoch;
  probed = true;
}

abbrev pub none_left : List Endpoint → Option Endpoint → Bool
none_left [] none = true
none_left _ _ = false

abbrev pub with_ghost : List Endpoint → Option Endpoint → List Endpoint
with_ghost eps none = eps
with_ghost eps (some g) = eps ++ g ∷ []

-- REMOVE on the targets, and MONITOR on those of a name for which it succeeded.
unfoldable pub to_monitor : (Endpoint → Bool) → List Endpoint → List Endpoint
to_monitor succeeds targets = keep (λ ep. is_among (names (keep succeeds targets)) ep.name) targets

-- The targets without those that are dropped.
unfoldable pub kept_targets : RecoveryInput → Selection → List Endpoint
kept_targets i s = keep (λ ep. not (is_among (electing_names i s.repoint) ep.name)) (reset_of i s)

unfoldable pub surgery : RecoveryInput → Selection → RecoveryResult
surgery i s =
    let drop = electing_names i s.repoint in
    let kept = kept_targets i s in
    let out = record (reported i s) {
      stale_epoch_repointed = keep (λ n. not (is_among drop n)) (names s.repoint.stale.stale_epoch);
    } in
    let targets = with_ghost kept s.ghost in
    if none_left kept s.ghost then out else record out {
      stranded = out.stranded ++ names (with_ghost [] s.ghost);
      removed = targets;
      monitored = to_monitor i.remove_succeeds targets;
    }

-- The guards, in the source's order.
unfoldable pub guarded : RecoveryInput → Selection → RecoveryResult
guarded i s =
    let out = reported i s in
    let quorum = quorum_reachable s.classified i.endpoints in
    if none_left (reset_of i s) s.ghost
    then (if not (is_empty out.skipped_stranded) then out else record out { healthy = quorum })
    else if not quorum
    then record nothing { probed = true }
    else if not i.master_answers
    then record nothing { probed = true }
    else if any_failover_in_progress i.survivor_read
        (untouched_survivors i.peers_of s.ghost (wiped_of i s) i.endpoints)
    then record nothing { probed = true }
    else surgery i s

-- A ghost target that is wiped anyway is no target.
abbrev pub unless_wiped : List String → Option Endpoint → Option Endpoint
unless_wiped being_wiped none = none
unless_wiped being_wiped (some g) = if is_among being_wiped g.name then none else some g

unfoldable pub ghost_step :
    RecoveryInput → List GhostHolder → List String → Seen → Option Endpoint × Seen
ghost_step i holders live seen =
    if is_empty live
    then (none, seen)
    else select_ghost_reap_target i.now holders live i.allow_ghost_reap seen

unfoldable pub select : RecoveryInput → Seen → Selection × Seen
select i seen =
    let live = live_sentinel_ip_set i.endpoints in
    let c = classify_stranded_sentinels true i.peers_of live i.endpoints in
    let rep =
      select_repoint_targets i.master_ip i.live_valkey_ips i.allow_stale_repoint (names c.targets)
        i.probe_of i.table_of i.endpoints in
    let (chosen, seen') = ghost_step i c.ghost_holders live seen in
    let before : Selection = record { classified = c; repoint = rep; ghost = none } in
    (record before { ghost = unless_wiped (wiped_of i before) chosen }, seen')

unfoldable pub recover_stranded_sentinels : RecoveryInput → Seen → RecoveryResult × Seen
recover_stranded_sentinels i seen =
    let (selected, seen') = select i seen in
    if is_empty i.endpoints || str_eq i.master_ip ""
    then (nothing, seen)
    else if i.deferred && not i.bypass_deferral
    then (nothing, seen)
    else (guarded i selected, seen')

-- `RunInitialReset` for one resource: those that REMOVE and MONITOR were sent to.
unfoldable pub run_initial_reset : RecoveryInput → List Endpoint × List Endpoint
run_initial_reset i =
    let c = classify_stranded_sentinels false i.peers_of [] i.endpoints in
    if is_empty i.endpoints || str_eq i.master_ip ""
    then ([], [])
    else if is_empty c.targets
    then ([], [])
    else if not (quorum_reachable c i.endpoints)
    then ([], [])
    else (c.targets, to_monitor i.remove_succeeds c.targets)
