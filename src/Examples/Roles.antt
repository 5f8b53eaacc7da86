-- ===== src/Examples/Roles.antt =====
-- internal/controller, the role labels and the recovery election: concrete pods.
use velkir.Prelude.HostPort
use velkir.Controller.Trackers
use velkir.Prelude.{◌≡◌, ◌⊎◌, refl, Bool, true, false, List, [], ◌∷◌, none, some, String, str_eq}
use velkir.Prelude.Int.{ℤ, pos}
use velkir.Sentinel.Live
use velkir.Sentinel.Types.{QuorumStatus, Snapshot, Source, Endpoint}
use velkir.Controller.Latch.{failover_latch_active}
use velkir.Sentinel.Observer
use velkir.Controller.Latch
use velkir.Controller.Survey.{SurveyedPod, Survey}
use velkir.Controller.Recovery
use velkir.Controller.Recovery.{RecoveryPass}
use velkir.Controller.Recovery.Spacing.{promotions, promotions-Spaced, Spaced}
use velkir.Controller.Roles
use velkir.Controller.Roles.{
  RolePod, RolePass, RoleTrackers, assigned, observed_roles, desired_roles_for_cr,
  reconcile_role_labels,
}
use velkir.Controller.Roles.Desired.{Observed, Unreadable, desired-Observed, pass-primary}
use velkir.Controller.Roles.Patches.{labelled_primary, reconcile-roles, roles_of, wants_of}

abbrev replica : String → String → ℤ → SurveyedPod
replica name ip offset = record {
  name = name;
  ip = ip;
  state = record {
    is_master = false;
    link_up = false;
    master_host = "10.0.0.1";
    slave_repl_offset = some offset;
  };
}

-- Two replicas of a master that is gone.
abbrev orphans : Survey
orphans = record {
  live_pod_ips = "10.0.0.2" ∷ "10.0.0.3" ∷ [];
  pending_pods = 0;
  dialed = true;
  masters = [];
  replicas = replica "a-1" "10.0.0.2" (pos 50) ∷ replica "a-2" "10.0.0.3" (pos 70) ∷ [];
  dial_failures = 0;
}

abbrev snapshot_of : String → Bool → Snapshot
snapshot_of addr ok = record {
  present = true;
  primary = record {
    addr = addr;
    epoch = pos 4;
    quorum = QuorumStatus.reachable;
    quorum_ok = ok;
    updated_at = pos 99_000_000_000;
    last_polled_at = pos 99_000_000_000;
    source = Source.poll;
    odown = [];
    odown_pull = [];
  };
}

abbrev sentinel_at : String → Endpoint
sentinel_at name = record { name = name; addr = "10.0.1.1:26379" }

-- The sentinels name the dead master, and know it only.
abbrev wedged : RecoveryPass
wedged = record {
  has_master_name = true;
  survey = some orphans;
  endpoints = sentinel_at "s-0" ∷ sentinel_at "s-1" ∷ sentinel_at "s-2" ∷ [];
  observer = some (snapshot_of "10.0.0.1:6379" true);
  failover_in_flight = false;
  now = pos 100_000_000_000;
  issued_at = pos 100_000_000_500;
  tables = some ("10.0.0.1" ∷ []) ∷ none ∷ some [] ∷ [];
  api_view = some ("10.0.0.3" ∷ "10.0.0.2" ∷ []);
}

promotions-Spaced_example : Spaced (pos 0) (promotions (pos 0) (wedged ∷ wedged ∷ []))
promotions-Spaced_example = promotions-Spaced (pos 0) (wedged ∷ wedged ∷ [])

abbrev pod : String → String → String → RolePod
pod name ip role = record { name = name; ip = ip; role = role; index = none }

-- The label stands on the first pod, and the sentinels name the second.
abbrev pods : List RolePod
pods = pod "a-0" "10.0.0.1" "primary" ∷ pod "a-1" "10.0.0.2" "replica" ∷ []

abbrev role_pass : RolePass
role_pass = record {
  sentinel_observed = true;
  snapshot = snapshot_of "10.0.0.2:6379" true;
  now = pos 100_000_000_000;
  zero_name = "a-0";
}

-- The address has been polled once before.
abbrev trackers : RoleTrackers
trackers = record {
  latch = none;
  stability = some (record {
    addr = "10.0.0.2:6379";
    first_polled = pos 89_000_000_000;
    last_polled = pos 89_000_000_000;
    fresh_count = 1;
  });
}

desired-Observed_example :
    (role_pass.snapshot.primary.quorum_ok ≡ true)
    × ((failover_latch_active trackers.latch role_pass.now ("10.0.0.2:6379", pos 4)).0 ≡ false)
    × (Observed role_pass pods trackers (observed_roles "10.0.0.2" pods)
        ⊎ Unreadable role_pass pods (observed_roles "10.0.0.2" pods))
unfolding desired_roles_for_cr Roles.agreed_roles failover_latch_active Roles.at_host
    HostPort.split_host_port HostPort.plain_host HostPort.cut HostPort.has Roles.pod_ip_matches_any
    Roles.damped Roles.moves Roles.current_primary Roles.desired_primary
    Trackers.observe_primary_stability Trackers.stability_after Trackers.advance
desired-Observed_example =
    desired-Observed role_pass pods trackers (observed_roles "10.0.0.2" pods) refl refl refl

-- The patch of the second pod fails.
pass-primary_example :
    labelled_primary
      (reconcile_role_labels
        (λ p. str_eq p.name "a-0")
        pods
        (desired_roles_for_cr role_pass pods trackers).0).pods
    ≡ true
unfolding HostPort.split_host_port HostPort.plain_host HostPort.cut HostPort.has
pass-primary_example =
    pass-primary (λ p. str_eq p.name "a-0") role_pass pods trackers refl refl (λ e. cc) refl

reconcile-roles_example :
    roles_of
      (reconcile_role_labels (λ p. true) pods (assigned (observed_roles "10.0.0.2" pods))).pods
    ≡ wants_of (observed_roles "10.0.0.2" pods)
unfolding reconcile_role_labels Roles.label_pods Roles.label_primaries observed_roles
    Roles.label_replicas
reconcile-roles_example = reconcile-roles (λ p. true) pods (observed_roles "10.0.0.2" pods) refl
