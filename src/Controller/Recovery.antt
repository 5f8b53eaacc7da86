-- ===== src/Controller/Recovery.antt =====
-- internal/controller/valkey_controller.go and internal/sentinel/manager.go: the recovery election, which
-- promotes a replica when no master is left. The calls over the network are parameters: the replica tables
-- of the sentinels, and the API server's list of the pods.
pub mod Candidate
pub mod Evidence
pub mod Safety
pub mod Spacing
use velkir.Prelude.{
  Option, ℕ, ◌+◌, Bool, true, false, not, ◌&&◌, ◌||◌, List, [], ◌∷◌, none, some, String, str_eq,
  leb, ◌==◌, if◌then◌else◌, length,
}
use velkir.Prelude.Int.{ℤ, pos, ltb_ℤ, eq_ℤ}
use velkir.Prelude.Time.{Time, Duration, time_sub}
use Prim.Native.Nat.{Ordering}
use Prim.Native.String.{compare}
use velkir.Sentinel.Live.{is_live, ReplicaTable, replica_table_doomed}
use velkir.Sentinel.Observer.{quorum_threshold}
use velkir.Sentinel.Types.{Endpoint, Snapshot}
use velkir.Controller.Survey.{SurveyedPod, Survey}
use velkir.Controller.Latch.{snapshot_stale, max_rollout_snapshot_age}
use velkir.Prelude.HostPort.{split_host_port}

abbrev pub is_empty {ℓ} : {A : Type ℓ} → List A → Bool
is_empty [] = true
is_empty (x ∷ xs) = false

-- The loop over the replicas, with the dead master that those before it follow.
unfoldable pub one_lineage : List String → String → List SurveyedPod → Bool
one_lineage live lineage [] = true
one_lineage live lineage (p ∷ ps) =
    let rest = one_lineage live p.state.master_host ps in
    if p.state.link_up
      || str_eq p.state.master_host ""
      || is_live live p.state.master_host
      || (not (str_eq lineage "") && not (str_eq p.state.master_host lineage))
    then false
    else rest

unfoldable pub promotion_survey_admits : Survey → List Endpoint → Bool
promotion_survey_admits s endpoints =
    if not s.dialed || not (s.dial_failures == 0) || not (s.pending_pods == 0)
    then false
    else if not (is_empty s.masters) || is_empty s.replicas || is_empty endpoints
    then false
    else one_lineage s.live_pod_ips "" s.replicas

abbrev pub text_before : String → String → Bool
text_before s t = elim (compare s t) [ Ordering.lt ↦ true | _ ↦ false ]

-- The better of two candidates, with their offsets; the first of two equals stays.
unfoldable pub better : SurveyedPod × ℤ → SurveyedPod × ℤ → SurveyedPod × ℤ
better (b, m) (p, n) =
    if ltb_ℤ m n || (eq_ℤ n m && text_before p.name b.name) then (p, n) else (b, m)

unfoldable pub considered :
    Option (SurveyedPod × ℤ) → SurveyedPod → Option ℤ → Option (SurveyedPod × ℤ)
considered best p none = best
considered none p (some n) = some (p, n)
considered (some b) p (some n) = some (better b (p, n))

-- `choosePromotionCandidate`, with the best replica so far.
unfoldable pub choose_promotion_candidate :
    Option (SurveyedPod × ℤ) → List SurveyedPod → Option (SurveyedPod × ℤ)
choose_promotion_candidate best [] = best
choose_promotion_candidate best (p ∷ ps) =
    choose_promotion_candidate (considered best p p.state.slave_repl_offset) ps

unfoldable pub fresh_snapshot_primary_ip : Snapshot → Time → Option String
fresh_snapshot_primary_ip snap now =
    if not snap.present || not snap.primary.quorum_ok
    then none
    else if snapshot_stale snap now max_rollout_snapshot_age
    then none
    else elim (split_host_port snap.primary.addr) [
      | none ↦ none
      | some host ↦ if str_eq host "" then none else some host
    ]

-- Whether every table that was read is doomed, and how many were.
unfoldable pub tables_doomed : List String → List ReplicaTable → Bool × ℕ
tables_doomed live [] = (true, 0)
tables_doomed live (none ∷ ts) = tables_doomed live ts
tables_doomed live (some t ∷ ts) =
    let (doomed, reachable) = tables_doomed live ts in
    (replica_table_doomed live t && doomed, reachable + 1)

unfoldable pub quorum_election_doomed : List Endpoint → List String → List ReplicaTable → Bool
quorum_election_doomed endpoints live tables =
    if is_empty endpoints || is_empty live
    then false
    else let (doomed, reachable) = tables_doomed live tables in
      if doomed then leb (quorum_threshold (length endpoints)) reachable else false

unfoldable pub all_surveyed : List String → List String → Bool
all_surveyed live [] = true
all_surveyed live (ip ∷ ips) =
    if str_eq ip "" || not (is_live live ip) then false else all_surveyed live ips

-- The API server's list of the pods' addresses, or `none` for an error.
unfoldable pub promotion_pod_view_confirmed : List String → Option (List String) → Bool
promotion_pod_view_confirmed live none = false
promotion_pod_view_confirmed live (some ips) =
    if not (length ips == length live) then false else all_surveyed live ips

abbrev pub recovery_promotion_cooldown : Duration
recovery_promotion_cooldown = pos 60_000_000_000

abbrev pub cooling : Time → Time → Bool
cooling last now = ltb_ℤ (time_sub now last) recovery_promotion_cooldown

-- What one pass meets: the snapshot of the observer, if there is one, whether a failover is in flight, the
-- clock at the first and at the second check of the cooldown, and the answers of the sentinels and of the
-- API server.
pub record RecoveryPass : Type 0 where
  pub has_master_name : Bool
  pub survey : Option Survey
  pub endpoints : List Endpoint
  pub observer : Option Snapshot
  pub failover_in_flight : Bool
  pub now : Time
  pub issued_at : Time
  pub tables : List ReplicaTable
  pub api_view : Option (List String)

unfoldable pub names_live_pod : Survey → Option String → Bool
names_live_pod s none = false
names_live_pod s (some ip) = is_live s.live_pod_ips ip

-- The gates over the survey and the snapshot up to the choice of the candidate, and those after it.
unfoldable pub election_open : RecoveryPass → Time → Survey → Snapshot → Bool
election_open d last s snap =
    if not snap.present
    then false
    else if names_live_pod s (fresh_snapshot_primary_ip snap d.now)
    then false
    else if d.failover_in_flight
    then false
    else not (cooling last d.now)

unfoldable pub election_confirmed : RecoveryPass → Time → Survey → Bool
election_confirmed d last s =
    if not (quorum_election_doomed d.endpoints s.live_pod_ips d.tables)
    then false
    else if not (promotion_pod_view_confirmed s.live_pod_ips d.api_view)
    then false
    else not (cooling last d.issued_at)

unfoldable pub promote_candidate :
    RecoveryPass → Time → Survey → Option (SurveyedPod × ℤ) → Option SurveyedPod × Time
promote_candidate d last s none = (none, last)
promote_candidate d last s (some best) =
    if election_confirmed d last s then (some best.0, d.issued_at) else (none, last)

unfoldable pub elect : RecoveryPass → Time → Survey → Snapshot → Option SurveyedPod × Time
elect d last s snap =
    if election_open d last s snap
    then promote_candidate d last s (choose_promotion_candidate none s.replicas)
    else (none, last)

-- With a survey and an observer.
unfoldable pub admitted :
    RecoveryPass → Time → Option Survey → Option Snapshot → Option SurveyedPod × Time
admitted d last (some s) (some snap) =
    if promotion_survey_admits s d.endpoints then elect d last s snap else (none, last)
admitted d last _ _ = (none, last)

-- `maybeRecoveryPromote`: the pod that gets REPLICAOF NO ONE, and the stamp of the last promotion.
unfoldable pub maybe_recovery_promote : RecoveryPass → Time → Option SurveyedPod × Time
maybe_recovery_promote d last =
    if d.has_master_name then admitted d last d.survey d.observer else (none, last)
