-- ===== src/Sentinel/Stranded/Warrant.antt =====
-- Why a sentinel may be wiped.
pub mod Guards
pub mod Surgery
pub mod Removed
pub mod Sound
use velkir.Prelude.{
  if_intro, suc, ◌-◌, ◌≡◌, ◌≢◌, ◌⊎◌, refl, inl, inr, Bool, true, false, not, ◌&&◌, ◌||◌, List, [],
  ◌∷◌, Option, none, some, String, arith, str_eq, eq_iff, and_iff, All,
}
use velkir.Sentinel.Types.{Endpoint}
use velkir.Sentinel.Live.{is_live, ReplicaTable, replica_table_doomed}
use velkir.Sentinel.Stranded.{
  no_repoints, stale_if_allowed, ghosts_among, filter_repoints, ProbeRead, StrandedClassification,
  PeersRead, no_such_master, peers, monitored, keep, corpse_view, is_corpse, table_doomed, is_among,
  classify_one, classify_stranded_sentinels, classify_repoint_targets, select_repoint_targets,
  RepointClassification, is_empty,
}
use velkir.Sentinel.Stranded.Epochs.{Behind, classify_stale-Behind}
use velkir.Sentinel.Stranded.Keep.{All-mono, keep-All, keep-both}
use velkir.Sentinel.Stranded.Recover.{RecoveryInput}

-- It knows no peer, or not even the master.
abbrev pub KnowsNobody : (Endpoint → PeersRead) → Endpoint → Type 0
KnowsNobody read ep = (read ep ≡ no_such_master) ⊎ (read ep ≡ peers [])

-- It monitors a pod that is gone, and so are all the replicas that it could promote.
abbrev pub MonitorsCorpse : RecoveryInput → Endpoint → Type 0
MonitorsCorpse i ep =
    (h : String) × (ips : List String) × (monitored (i.probe_of ep) ≡ some h)
    × (h ≢ i.master_ip)
    × (is_live i.live_valkey_ips h ≡ false)
    × (i.table_of ep ≡ some ips)
    × All (λ ip. is_live i.live_valkey_ips ip ≡ false) ips

classify_one-KnowsNobody :
    (recovers : Bool) (live : List String) (read : Endpoint → PeersRead) (ep : Endpoint)
    (c : StrandedClassification) (r : PeersRead)
    → read ep ≡ r
    → All (KnowsNobody read) c.targets
    → All (KnowsNobody read) (classify_one recovers live ep r c).targets
unfolding classify_one
classify_one-KnowsNobody recovers live read ep c PeersRead.failed e h = h
classify_one-KnowsNobody true live read ep c no_such_master e h = (inl e, h)
classify_one-KnowsNobody false live read ep c no_such_master e h = h
classify_one-KnowsNobody recovers live read ep c (peers []) e h = (inr e, h)
classify_one-KnowsNobody recovers live read ep c (peers (ip ∷ ips)) e h =
    let ghosts = ghosts_among live (ip ∷ ips) in
    let counted : StrandedClassification = record c { reachable = suc c.reachable } in
    let holding : StrandedClassification = record c {
      reachable = suc c.reachable;
      ghost_holders = record { endpoint = ep; ghost_ips = ghosts } ∷ c.ghost_holders;
    } in
    if_intro (λ c'. All (KnowsNobody read) c'.targets) (is_empty live || is_empty ghosts) counted
      holding (λ _. h) (λ _. h)

pub classify-KnowsNobody :
    (recovers : Bool) (live : List String) (read : Endpoint → PeersRead) (eps : List Endpoint)
    → All (KnowsNobody read) (classify_stranded_sentinels recovers read live eps).targets
unfolding classify_stranded_sentinels
classify-KnowsNobody recovers live read [] = tt
classify-KnowsNobody recovers live read (ep ∷ eps) =
    classify_one-KnowsNobody recovers live read ep
      (classify_stranded_sentinels recovers read live eps) (read ep) refl
      (classify-KnowsNobody recovers live read eps)

corpse_view-host :
    (master : String) (live : List String) (host : Option String)
    → corpse_view master live host ≡ true
    → (h : String) × (host ≡ some h) × (h ≢ master) × (is_live live h ≡ false)
unfolding corpse_view
corpse_view-host master live none h = absurd (ground (arith, h))
corpse_view-host master live (some host) h =
    (host, refl, λ same. ground (arith, same, h, eq_iff host master), ground (arith, h))

doomed-All :
    (live ips : List String)
    → replica_table_doomed live ips ≡ true
    → All (λ ip. is_live live ip ≡ false) ips
unfolding replica_table_doomed
doomed-All live [] h = tt
doomed-All live (ip ∷ ips) h = (ground (arith, h), doomed-All live ips (ground (arith, h)))

table_doomed-All :
    (live : List String) (t : ReplicaTable)
    → table_doomed live t ≡ true
    → (ips : List String) × (t ≡ some ips) × All (λ ip. is_live live ip ≡ false) ips
table_doomed-All live none h = absurd (ground (arith, h))
table_doomed-All live (some ips) h = (ips, refl, doomed-All live ips h)

-- What a classification of the re-points has been found to hold.
abbrev pub Repoints : (Endpoint → Type 0) → (Endpoint → Type 0) → RepointClassification → Type 0
Repoints P Q c = All P c.dead_master × All Q c.stale.stale_epoch

stale-Behind :
    (allow : Bool) (master : String) (live : List String) (read : Endpoint → ProbeRead)
    (eps : List Endpoint)
    → All (Behind master live read eps) (stale_if_allowed allow master live read eps).stale_epoch
unfolding stale_if_allowed
stale-Behind false master live read eps = tt
stale-Behind true master live read eps = classify_stale-Behind master live read eps

classify-Repoints :
    (allow : Bool) (master : String) (live : List String) (read : Endpoint → ProbeRead)
    (eps : List Endpoint)
    → Repoints
        (λ ep. is_corpse master live (read ep) ≡ true)
        (Behind master live read eps)
        (classify_repoint_targets master live allow read eps)
unfolding classify_repoint_targets
classify-Repoints allow master live read eps =
    let armed : RepointClassification = record {
      dead_master = keep (λ ep. is_corpse master live (read ep)) eps;
      stale = stale_if_allowed allow master live read eps;
    } in
    if_intro (Repoints (λ ep. is_corpse master live (read ep) ≡ true) (Behind master live read eps))
      (is_empty live || str_eq master "") no_repoints armed (λ _. (tt, tt))
      (λ _. (
        keep-All (λ ep. is_corpse master live (read ep) ≡ true)
            (λ ep. is_corpse master live (read ep)) eps (λ ep yes. yes),
        stale-Behind allow master live read eps,
      ))

filter-Repoints :
    (P Q : Endpoint → Type 0) (live wiped : List String) (table : Endpoint → ReplicaTable)
    (c : RepointClassification)
    → Repoints P Q c
    → Repoints
        (λ ep. P ep × (table_doomed live (table ep) ≡ true))
        Q
        (filter_repoints live wiped table c)
unfolding filter_repoints
filter-Repoints P Q live wiped table c (corpses, stale) = (
  All-mono (λ ep. P ep × (not (is_among wiped ep.name) && table_doomed live (table ep) ≡ true))
      (λ ep. P ep × (table_doomed live (table ep) ≡ true))
      (keep (λ ep. not (is_among wiped ep.name) && table_doomed live (table ep)) c.dead_master)
      (λ ep h.
        (h.0, ((and_iff (not (is_among wiped ep.name)) (table_doomed live (table ep))).0 h.1).1))
      (keep-both P (λ ep. not (is_among wiped ep.name) && table_doomed live (table ep))
        c.dead_master corpses),
  All-mono (λ ep. Q ep × (not (is_among wiped ep.name) ≡ true)) Q
      (keep (λ ep. not (is_among wiped ep.name)) c.stale.stale_epoch) (λ ep h. h.0)
      (keep-both Q (λ ep. not (is_among wiped ep.name)) c.stale.stale_epoch stale),
)

corpse-MonitorsCorpse :
    (i : RecoveryInput) (ep : Endpoint)
    → is_corpse i.master_ip i.live_valkey_ips (i.probe_of ep) ≡ true
    → table_doomed i.live_valkey_ips (i.table_of ep) ≡ true
    → MonitorsCorpse i ep
corpse-MonitorsCorpse i ep corpse doomed =
    let (h, monitors, other, dead) =
      corpse_view-host i.master_ip i.live_valkey_ips (monitored (i.probe_of ep)) corpse in
    let (ips, table, all_dead) = table_doomed-All i.live_valkey_ips (i.table_of ep) doomed in
    (h, ips, monitors, other, dead, table, all_dead)

-- What is selected for a re-point.
pub select-Repoints :
    (i : RecoveryInput) (wiped : List String)
    → Repoints (MonitorsCorpse i) (Behind i.master_ip i.live_valkey_ips i.probe_of i.endpoints) (
        select_repoint_targets i.master_ip i.live_valkey_ips i.allow_stale_repoint wiped i.probe_of
          i.table_of i.endpoints)
unfolding select_repoint_targets
select-Repoints i wiped =
    let live = i.live_valkey_ips in
    let P : Endpoint → Type 0 = λ ep. is_corpse i.master_ip live (i.probe_of ep) ≡ true in
    let Q : Endpoint → Type 0 = Behind i.master_ip live i.probe_of i.endpoints in
    let c =
      classify_repoint_targets i.master_ip live i.allow_stale_repoint i.probe_of i.endpoints in
    let kept = filter_repoints live wiped i.table_of c in
    if_intro (Repoints (MonitorsCorpse i) Q) (is_empty live) no_repoints kept (λ _. (tt, tt))
      (λ _.
        let found =
          filter-Repoints P Q live wiped i.table_of c
            (classify-Repoints i.allow_stale_repoint i.master_ip live i.probe_of i.endpoints) in
        (
          All-mono (λ ep. P ep × (table_doomed live (i.table_of ep) ≡ true)) (MonitorsCorpse i)
              kept.dead_master (λ ep h. corpse-MonitorsCorpse i ep h.0 h.1) found.0,
          found.1,
        ))
