-- ===== src/Controller/Roles.antt =====
-- internal/controller/valkey_controller.go: which role label each pod should carry, and the patches that
-- bring it about. The mode of the resource is a sentinel's with an observer, or another; the name of the
-- pod with ordinal zero is a parameter. Events, audit lines and the readiness gates are left out.
pub mod Desired
pub mod Patches
use velkir.Prelude.{
  str_eq, not, ℕ, Bool, true, false, ◌&&◌, ◌||◌, List, [], ◌∷◌, map, Option, none, some, String,
  ltb, if◌then◌else◌,
}
use velkir.Prelude.Time.{Time}
use velkir.Sentinel.Types.{Snapshot}
use velkir.Controller.Latch.{FailoverLatch, failover_latch_active}
use velkir.Controller.Trackers.{PrimaryStabilityState, observe_primary_stability}
use velkir.Prelude.HostPort.{split_host_port}

-- The pod: its name, its address, its role label, the empty text if it has none, and its index label.
pub record RolePod : Type 0 where
  pub name : String
  pub ip : String
  pub role : String
  pub index : Option String

-- The pods with the roles that they should carry.
abbrev pub Assignment : Type 0
Assignment = List (RolePod × String)

-- `suppressed` holds all labels; `kept` is the nil map, in which no pod has a role.
pub data Roles : Type 0 where
  suppressed kept : Roles
  assigned : Assignment → Roles

unfoldable pub any_valkey_pod_labelled : List RolePod → Bool
any_valkey_pod_labelled [] = false
any_valkey_pod_labelled (p ∷ ps) =
    str_eq p.role "primary" || str_eq p.role "replica" || any_valkey_pod_labelled ps

unfoldable pub desired_role_for_pod : String → RolePod → String
desired_role_for_pod zero_name p = elim p.index [
  | some i ↦ if str_eq i "0" then "primary" else "replica"
  | none ↦ if str_eq p.name zero_name then "primary" else "replica"
]

unfoldable pub bootstrap_roles : String → List RolePod → Assignment
bootstrap_roles zero_name [] = []
bootstrap_roles zero_name (p ∷ ps) =
    (p, desired_role_for_pod zero_name p) ∷ bootstrap_roles zero_name ps

abbrev pub has_ip : String → RolePod → Bool
has_ip host p = not (str_eq p.ip "") && str_eq p.ip host

unfoldable pub pod_ip_matches_any : String → List RolePod → Bool
pod_ip_matches_any host [] = false
pod_ip_matches_any host (p ∷ ps) = has_ip host p || pod_ip_matches_any host ps

unfoldable pub observed_roles : String → List RolePod → Assignment
observed_roles host [] = []
observed_roles host (p ∷ ps) =
    (p, if has_ip host p then "primary" else "replica") ∷ observed_roles host ps

-- The names of the last pod that carries the label and of the last one at the address, empty for none.
unfoldable pub current_primary : String → List RolePod → String
current_primary found [] = found
current_primary found (p ∷ ps) =
    current_primary (if str_eq p.role "primary" then p.name else found) ps

unfoldable pub desired_primary : String → String → List RolePod → String
desired_primary host found [] = found
desired_primary host found (p ∷ ps) =
    desired_primary host (if has_ip host p then p.name else found) ps

-- Whether the label would move to another pod.
unfoldable pub moves : String → List RolePod → Bool
moves host pods =
    let current = current_primary "" pods in
    let desired = desired_primary host "" pods in
    not (str_eq current "") && not (str_eq desired "") && not (str_eq current desired)

-- What a pass meets, and the trackers that it may change.
pub record RolePass : Type 0 where
  pub sentinel_observed : Bool
  pub snapshot : Snapshot
  pub now : Time
  pub zero_name : String

pub record RoleTrackers : Type 0 where
  pub latch : Option FailoverLatch
  pub stability : Option PrimaryStabilityState

abbrev pub new_primary_stable_min_polls : ℕ
new_primary_stable_min_polls = 2

unfoldable pub damped : RolePass → List RolePod → String → RoleTrackers → Roles × RoleTrackers
damped d pods host tr =
    let (reading, stability) =
      observe_primary_stability tr.stability d.snapshot.primary.addr
        d.snapshot.primary.last_polled_at in
    (
      if moves host pods && ltb reading.0 new_primary_stable_min_polls
          then suppressed
          else assigned (observed_roles host pods),
      record tr { stability = stability },
    )

unfoldable pub at_host :
    RolePass → List RolePod → Option String → RoleTrackers → Roles × RoleTrackers
at_host d pods none tr = (assigned (bootstrap_roles d.zero_name pods), tr)
at_host d pods (some host) tr =
    if pod_ip_matches_any host pods then damped d pods host tr else (suppressed, tr)

-- The part after the quorum is known to agree.
unfoldable pub agreed_roles : RolePass → List RolePod → RoleTrackers → Roles × RoleTrackers
agreed_roles d pods tr =
    let (active, latch) =
      failover_latch_active tr.latch d.now (d.snapshot.primary.addr, d.snapshot.primary.epoch) in
    let left = record tr { latch = latch } in
    if active
    then (suppressed, left)
    else at_host d pods (split_host_port d.snapshot.primary.addr) left

unfoldable pub desired_roles_for_cr : RolePass → List RolePod → RoleTrackers → Roles × RoleTrackers
desired_roles_for_cr d pods tr =
    if not d.sentinel_observed
    then (assigned (bootstrap_roles d.zero_name pods), tr)
    else if not d.snapshot.present
    then (
      if any_valkey_pod_labelled pods then kept else assigned (bootstrap_roles d.zero_name pods),
      tr,
    )
    else if not d.snapshot.primary.quorum_ok
    then (suppressed, tr)
    else agreed_roles d pods tr

-- The pods after one loop of patches, and whether no patch failed; a failed patch ends the loop. `accepts`
-- is the API server's answer.
unfoldable pub label_primaries : (RolePod → Bool) → Assignment → Assignment × Bool
label_primaries accepts [] = ([], true)
label_primaries accepts ((p, want) ∷ rest) =
    let (done, ok) = label_primaries accepts rest in
    if not (str_eq want "primary") || str_eq p.role want
    then ((p, want) ∷ done, ok)
    else if accepts p
    then ((record p { role = want }, want) ∷ done, ok)
    else ((p, want) ∷ rest, false)

unfoldable pub label_replicas : (RolePod → Bool) → Assignment → Assignment × Bool
label_replicas accepts [] = ([], true)
label_replicas accepts ((p, want) ∷ rest) =
    let (done, ok) = label_replicas accepts rest in
    if str_eq want "primary" || str_eq p.role want
    then ((p, want) ∷ done, ok)
    else if accepts p
    then ((record p { role = want }, want) ∷ done, ok)
    else ((p, want) ∷ rest, false)

unfoldable pub label_pods : (RolePod → Bool) → Assignment → Assignment × Bool
label_pods accepts pods =
    let (promoted, ok) = label_primaries accepts pods in
    if ok then label_replicas accepts promoted else (promoted, false)

-- The pods whose label the pass took away, which lose their clients.
unfoldable pub demoted : Assignment → List String
demoted [] = []
demoted ((p, want) ∷ rest) =
    if not (str_eq want "primary") && str_eq p.role "primary"
    then p.name ∷ demoted rest
    else demoted rest

-- What `reconcileRoleLabels` leaves: the pods, those whose clients it kills, and whether it failed.
pub record Labelled : Type 0 where
  pub pods : List RolePod
  pub killed : List String
  pub is_error : Bool

unfoldable pub reconcile_role_labels : (RolePod → Bool) → List RolePod → Roles → Labelled
reconcile_role_labels accepts pods (assigned roles) =
    let (done, ok) = label_pods accepts roles in
    record {
      pods = map (λ x. x.0) done;
      killed = if ok then demoted roles else [];
      is_error = not ok;
    }
reconcile_role_labels accepts pods _ = record { pods = pods; killed = []; is_error = false }
