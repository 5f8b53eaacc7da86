-- ===== src/Sentinel/Stranded.antt =====
-- internal/sentinel/manager.go: the sentinels that a recovery pass may wipe. What the network returns for
-- each endpoint is a parameter, as in SurgeryGuard: the source reads every endpoint once, in parallel, and
-- keeps the answers in the order of the endpoints. A set is a list.
pub mod Ghosts
pub mod Keep
pub mod Debounce
pub mod Epochs
pub mod Recover
pub mod Warrant
use velkir.Prelude.{
  not, ℕ, suc, Bool, true, false, ◌&&◌, ◌||◌, List, [], ◌∷◌, Option, none, some, String, str_eq,
  leb, if◌then◌else◌, length, any,
}
use velkir.Prelude.Int.{ℤ, pos, ltb_ℤ, eq_ℤ, max_ℤ}
use velkir.Sentinel.Types.{Endpoint}
use velkir.Sentinel.Live.{is_live, ReplicaTable, replica_table_doomed}
use velkir.Sentinel.Observer.{quorum_threshold}
use velkir.Sentinel.SurgeryGuard.{Bytes, flags_indicate_election}
use velkir.Prelude.HostPort.{split_host_port}

-- What `SentinelsAll` reads from an endpoint: the addresses of its peers, or one of two kinds of error.
pub data PeersRead : Type 0 where
  failed no_such_master : PeersRead
  peers : List String → PeersRead

-- What `ProbeAll` reads: the address of the master, its epoch if it parses, and its flags.
pub data ProbeRead : Type 0 where
  failed : ProbeRead
  probed : String → Option ℤ → Bytes → ProbeRead

pub record GhostHolder : Type 0 where
  pub endpoint : Endpoint
  pub ghost_ips : List String

pub record StrandedClassification : Type 0 where
  pub targets : List Endpoint
  pub reachable : ℕ
  pub ghost_holders : List GhostHolder

abbrev pub is_empty {ℓ} : {A : Type ℓ} → List A → Bool
is_empty [] = true
is_empty (x ∷ xs) = false

unfoldable pub ghosts_among : List String → List String → List String
ghosts_among live [] = []
ghosts_among live (ip ∷ ips) =
    let rest = ghosts_among live ips in if str_eq ip "" || is_live live ip then rest else ip ∷ rest

abbrev pub stranded : Endpoint → StrandedClassification → StrandedClassification
stranded ep c = record c { targets = ep ∷ c.targets; reachable = suc c.reachable }

-- A sentinel that gossips: it holds ghosts if it names a peer that is no live pod.
abbrev pub gossiping :
    List String → Endpoint → List String → StrandedClassification → StrandedClassification
gossiping live ep ips c =
    let ghosts = ghosts_among live ips in
    let holders = record { endpoint = ep; ghost_ips = ghosts } ∷ c.ghost_holders in
    if is_empty live || is_empty ghosts
    then record c { reachable = suc c.reachable }
    else record c { reachable = suc c.reachable; ghost_holders = holders }

-- The flag says whether an answer that the master is not known counts as stranded.
unfoldable pub classify_one :
    Bool → List String → Endpoint → PeersRead → StrandedClassification → StrandedClassification
classify_one recovers live ep failed c = c
classify_one recovers live ep no_such_master c = if recovers then stranded ep c else c
classify_one recovers live ep (peers []) c = stranded ep c
classify_one recovers live ep (peers (ip ∷ ips)) c = gossiping live ep (ip ∷ ips) c

unfoldable pub classify_stranded_sentinels :
    Bool → (Endpoint → PeersRead) → List String → List Endpoint → StrandedClassification
classify_stranded_sentinels recovers read live [] = record {
  targets = [];
  reachable = 0;
  ghost_holders = [];
}
classify_stranded_sentinels recovers read live (ep ∷ eps) =
    classify_one recovers live ep (read ep) (classify_stranded_sentinels recovers read live eps)

unfoldable pub quorum_reachable : StrandedClassification → List Endpoint → Bool
quorum_reachable c endpoints = leb (quorum_threshold (length endpoints)) c.reachable

-- A host that is not empty.
abbrev pub full_host : Option String → Option String
full_host none = none
full_host (some h) = if str_eq h "" then none else some h

unfoldable pub live_sentinel_ip_set : List Endpoint → List String
live_sentinel_ip_set [] = []
live_sentinel_ip_set (ep ∷ eps) =
    let rest = live_sentinel_ip_set eps in
    elim (full_host (split_host_port ep.addr)) [ none ↦ rest | some h ↦ h ∷ rest ]

-- The host that a probed sentinel monitors, if it answers with one.
unfoldable pub monitored : ProbeRead → Option String
monitored failed = none
monitored (probed addr epoch flags) =
    if str_eq addr "" then none else full_host (split_host_port addr)

abbrev pub epoch_of : ProbeRead → Option ℤ
epoch_of failed = none
epoch_of (probed addr epoch flags) = epoch

abbrev pub flags_of : ProbeRead → Bytes
flags_of failed = []
flags_of (probed addr epoch flags) = flags

-- The first loop over the probes: the greatest epoch, and the sentinels that monitor the master with the
-- greatest of theirs.
pub record Frontier : Type 0 where
  pub frontier_epoch : ℤ
  pub cohort_exists : Bool
  pub cohort : List Endpoint
  pub agree_epoch : ℤ

abbrev pub start : Frontier
start = record { frontier_epoch = pos 0; cohort_exists = false; cohort = []; agree_epoch = pos 0 }

-- One more probe, as the host that it monitors, its epoch and its flags: `none` disarms the class.
unfoldable pub join_frontier :
    String → Endpoint → Option String → Option ℤ → Bytes → Frontier → Option Frontier
join_frontier master ep none epoch flags f = some f
join_frontier master ep (some host) none flags f = none
join_frontier master ep (some host) (some e) flags f =
    if not (str_eq host master)
    then some (record f { frontier_epoch = max_ℤ f.frontier_epoch e })
    else if flags_indicate_election flags
    then none
    else some (record {
      frontier_epoch = max_ℤ f.frontier_epoch e;
      cohort_exists = true;
      cohort = ep ∷ f.cohort;
      agree_epoch = max_ℤ f.agree_epoch e;
    })

abbrev pub join_probe : String → Endpoint → ProbeRead → Option Frontier → Option Frontier
join_probe master ep r none = none
join_probe master ep r (some f) = join_frontier master ep (monitored r) (epoch_of r) (flags_of r) f

unfoldable pub frontier_of : String → (Endpoint → ProbeRead) → List Endpoint → Option Frontier
frontier_of master read [] = some start
frontier_of master read (ep ∷ eps) = join_probe master ep (read ep) (frontier_of master read eps)

-- The tests of the second loop.
unfoldable pub stale_view : String → List String → ℤ → Option String → Option ℤ → Bytes → Bool
stale_view master live agree (some host) (some e) flags =
    not (str_eq host master)
    && is_live live host
    && ltb_ℤ e agree
    && not (flags_indicate_election flags)
stale_view master live agree _ _ flags = false

abbrev pub is_stale : String → List String → ℤ → ProbeRead → Bool
is_stale master live agree r = stale_view master live agree (monitored r) (epoch_of r) (flags_of r)

unfoldable pub keep {ℓ} : {A : Type ℓ} → (A → Bool) → List A → List A
keep p [] = []
keep p (x ∷ xs) = let rest = keep p xs in if p x then x ∷ rest else rest

-- The targets, the cohort and the epoch that the cohort agrees on.
pub record StaleTargets : Type 0 where
  pub stale_epoch : List Endpoint
  pub cohort : List Endpoint
  pub agree_epoch : ℤ

abbrev pub disarmed : StaleTargets
disarmed = record { stale_epoch = []; cohort = []; agree_epoch = pos 0 }

-- The class over the loop's result: the master's sentinels must be at the frontier.
unfoldable pub behind_frontier :
    String → List String → (Endpoint → ProbeRead) → List Endpoint → Option Frontier → StaleTargets
behind_frontier master live read endpoints none = disarmed
behind_frontier master live read endpoints (some f) =
    if not f.cohort_exists || not (eq_ℤ f.agree_epoch f.frontier_epoch) then disarmed else record {
      stale_epoch = keep (λ ep. is_stale master live f.agree_epoch (read ep)) endpoints;
      cohort = f.cohort;
      agree_epoch = f.agree_epoch;
    }

unfoldable pub classify_stale_epoch_targets :
    String → List String → (Endpoint → ProbeRead) → List Endpoint → StaleTargets
classify_stale_epoch_targets master live read endpoints =
    behind_frontier master live read endpoints (frontier_of master read endpoints)

-- A sentinel whose master is no live pod.
unfoldable pub corpse_view : String → List String → Option String → Bool
corpse_view master live none = false
corpse_view master live (some host) = not (str_eq host master) && not (is_live live host)

abbrev pub is_corpse : String → List String → ProbeRead → Bool
is_corpse master live r = corpse_view master live (monitored r)

pub record RepointClassification : Type 0 where
  pub dead_master : List Endpoint
  pub stale : StaleTargets

unfoldable pub stale_if_allowed :
    Bool → String → List String → (Endpoint → ProbeRead) → List Endpoint → StaleTargets
stale_if_allowed false master live read endpoints = disarmed
stale_if_allowed true master live read endpoints =
    classify_stale_epoch_targets master live read endpoints

unfoldable pub classify_repoint_targets :
    String → List String → Bool → (Endpoint → ProbeRead) → List Endpoint → RepointClassification
classify_repoint_targets master live allow_stale read endpoints =
    if is_empty live || str_eq master ""
    then record { dead_master = []; stale = disarmed }
    else record {
      dead_master = keep (λ ep. is_corpse master live (read ep)) endpoints;
      stale = stale_if_allowed allow_stale master live read endpoints;
    }

abbrev pub table_doomed : List String → ReplicaTable → Bool
table_doomed live none = false
table_doomed live (some ips) = replica_table_doomed live ips

unfoldable pub is_among : List String → String → Bool
is_among names n = any (λ m. str_eq m n) names

abbrev pub no_repoints : RepointClassification
no_repoints = record { dead_master = []; stale = disarmed }

-- The names are of the sentinels that are wiped already.
unfoldable pub filter_repoints :
    List String
    → List String
    → (Endpoint → ReplicaTable)
    → RepointClassification
    → RepointClassification
filter_repoints live being_wiped table c = record {
  dead_master =
      keep (λ ep. not (is_among being_wiped ep.name) && table_doomed live (table ep)) c.dead_master;
  stale = record c.stale {
    stale_epoch = keep (λ ep. not (is_among being_wiped ep.name)) c.stale.stale_epoch;
  };
}

unfoldable pub select_repoint_targets :
    String
    → List String
    → Bool
    → List String
    → (Endpoint → ProbeRead)
    → (Endpoint → ReplicaTable)
    → List Endpoint
    → RepointClassification
select_repoint_targets master live allow_stale being_wiped read table endpoints =
    let c = classify_repoint_targets master live allow_stale read endpoints in
    if is_empty live then no_repoints else filter_repoints live being_wiped table c
