-- ===== src/Controller/Recovery/Safety.antt =====
-- What a promotion rests on.
use velkir.Prelude.{
  ◌≤◌, ◌≡◌, refl, inl, inr, true, false, List, Option, none, some, String, arith, Bool-cases,
  length, All, count_if,
}
use velkir.Prelude.Int.{ℤ, ◌≤ℤ◌}
use velkir.Prelude.Time.{Time, time_sub}
use mathlib.Core.Path.{subst}
use velkir.Sentinel.Live.{ReplicaTable}
use velkir.Sentinel.Observer.{quorum_threshold}
use velkir.Sentinel.Types.{Endpoint, Snapshot}
use velkir.Controller.Survey.{SurveyedPod, Survey}
use velkir.Controller.Recovery.Candidate.{Chosen, choose-Chosen}
use velkir.Controller.Recovery.Evidence.{
  OneDeadMaster, Doomed, was_read, SameView, one_lineage-OneDeadMaster, tables-Doomed, tables-read,
  confirmed-SameView,
}
use velkir.Controller.Recovery.{
  choose_promotion_candidate, is_empty, promotion_survey_admits, RecoveryPass,
  fresh_snapshot_primary_ip, quorum_election_doomed, names_live_pod, election_open,
  election_confirmed, promote_candidate, elect, admitted, maybe_recovery_promote,
  recovery_promotion_cooldown,
}

-- The survey reached every pod and found no master, and its replicas follow one dead master.
pub record Admits (s : Survey) : Type 0 where
  pub dialed : s.dialed ≡ true
  pub reached_all : s.dial_failures ≡ 0
  pub none_pending : s.pending_pods ≡ 0
  pub masterless : is_empty s.masters ≡ true
  pub orphaned : OneDeadMaster s.live_pod_ips s.replicas

pub survey-Admits :
    (s : Survey) (endpoints : List Endpoint) → promotion_survey_admits s endpoints ≡ true → Admits s
unfolding promotion_survey_admits
survey-Admits s endpoints h = record {
  dialed = ground (arith, h);
  reached_all = ground (arith, h);
  none_pending = ground (arith, h);
  masterless = ground (arith, h);
  orphaned =
      one_lineage-OneDeadMaster s.live_pod_ips s.replicas (ground (arith, h)) (ground (arith, h));
}

-- No failover runs, the observer does not name a live master, a quorum of sentinels was read, each of which
-- knows no live replica, the API server lists the pods of the survey, and the last promotion is a minute
-- old.
pub record Opens (d : RecoveryPass) (last : Time) (s : Survey) (snap : Snapshot) : Type 0 where
  pub observed : snap.present ≡ true
  pub not_named : names_live_pod s (fresh_snapshot_primary_ip snap d.now) ≡ false
  pub idle : d.failover_in_flight ≡ false
  pub doomed : All (Doomed s.live_pod_ips) d.tables
  pub quorum : quorum_threshold (length d.endpoints) ≤ count_if was_read d.tables
  pub same_view : SameView s.live_pod_ips d.api_view
  pub cooled : recovery_promotion_cooldown ≤ℤ time_sub d.issued_at last

tables_of_quorum :
    (endpoints : List Endpoint) (live : List String) (ts : List ReplicaTable)
    → quorum_election_doomed endpoints live ts ≡ true
    → All (Doomed live) ts × (quorum_threshold (length endpoints) ≤ count_if was_read ts)
unfolding quorum_election_doomed
tables_of_quorum endpoints live ts h =
    (tables-Doomed live ts (ground (arith, h)), ground (arith, h, tables-read live ts))

gates-Opens :
    (d : RecoveryPass) (last : Time) (s : Survey) (snap : Snapshot)
    → election_open d last s snap ≡ true
    → election_confirmed d last s ≡ true
    → Opens d last s snap
unfolding election_open election_confirmed
gates-Opens d last s snap gates confirmed =
    let tables = tables_of_quorum d.endpoints s.live_pod_ips d.tables (ground (arith, confirmed)) in
    record {
      observed = ground (arith, gates);
      not_named = ground (arith, gates);
      idle = ground (arith, gates);
      doomed = tables.0;
      quorum = tables.1;
      same_view = confirmed-SameView s.live_pod_ips d.api_view (ground (arith, confirmed));
      cooled = ground (arith, confirmed);
    }

-- The candidate of these replicas.
abbrev pub Elected : List SurveyedPod → SurveyedPod → Type 0
Elected ps p = (n : ℤ) × Chosen ps (some (p, n))

promote-Elected :
    (d : RecoveryPass) (last : Time) (s : Survey) (best : Option (SurveyedPod × ℤ))
    (p : SurveyedPod)
    → Chosen s.replicas best
    → (promote_candidate d last s best).0 ≡ some p
    → (election_confirmed d last s ≡ true)
      × Elected s.replicas p
      × ((promote_candidate d last s best).1 ≡ d.issued_at)
unfolding promote_candidate
promote-Elected d last s none p c h = cc
promote-Elected d last s (some (q, n)) p c h = elim (Bool-cases (election_confirmed d last s)) [
  | inr e ↦ absurd (ground (arith, e, h))
  | inl e ↦
      let same : q ≡ p = ground (arith, e, h) in
      (e, subst (Elected s.replicas) same (n, c), ground (arith, e))
]

abbrev pub Promoted : RecoveryPass → Time → SurveyedPod → Survey → Snapshot → Type 0
Promoted d last p s snap = Admits s × Opens d last s snap × Elected s.replicas p

elect-Promoted :
    (d : RecoveryPass) (last : Time) (s : Survey) (snap : Snapshot) (p : SurveyedPod)
    → Admits s
    → (elect d last s snap).0 ≡ some p
    → Promoted d last p s snap × ((elect d last s snap).1 ≡ d.issued_at)
unfolding elect
elect-Promoted d last s snap p admits h = elim (Bool-cases (election_open d last s snap)) [
  | inr e ↦ absurd (ground (arith, e, h))
  | inl e ↦
      let best = choose_promotion_candidate none s.replicas in
      let out = promote-Elected d last s best p (choose-Chosen s.replicas) (ground (arith, e, h)) in
      ((admits, gates-Opens d last s snap e out.0, out.1), ground (arith, e, out.2))
]

admitted-Promoted :
    (d : RecoveryPass) (last : Time) (survey : Option Survey) (observer : Option Snapshot)
    (p : SurveyedPod)
    → (admitted d last survey observer).0 ≡ some p
    → (s : Survey) × (snap : Snapshot) × (survey ≡ some s)
      × (observer ≡ some snap)
      × Promoted d last p s snap
      × ((admitted d last survey observer).1 ≡ d.issued_at)
unfolding admitted
admitted-Promoted d last none none p h = cc
admitted-Promoted d last none (some snap) p h = cc
admitted-Promoted d last (some s) none p h = cc
admitted-Promoted d last (some s) (some snap) p h =
    elim (Bool-cases (promotion_survey_admits s d.endpoints)) [
      | inr e ↦ absurd (ground (arith, e, h))
      | inl e ↦
          let out =
            elect-Promoted d last s snap p (survey-Admits s d.endpoints e) (ground (arith, e, h)) in
          (s, snap, refl, refl, out.0, ground (arith, e, out.1))
    ]

pub promote-Promoted :
    (d : RecoveryPass) (last : Time) (p : SurveyedPod)
    → (maybe_recovery_promote d last).0 ≡ some p
    → (s : Survey) × (snap : Snapshot) × (d.survey ≡ some s)
      × (d.observer ≡ some snap)
      × Promoted d last p s snap
      × ((maybe_recovery_promote d last).1 ≡ d.issued_at)
unfolding maybe_recovery_promote
promote-Promoted d last p h = elim (Bool-cases d.has_master_name) [
  | inr e ↦ absurd (ground (arith, e, h))
  | inl e ↦
      let out = admitted-Promoted d last d.survey d.observer p (ground (arith, e, h)) in
      (out.0, out.1, out.2, out.3, out.4, ground (arith, e, out.5))
]
