-- ===== src/Controller/Recovery/Evidence.antt =====
-- What the gates of the election establish.
use velkir.Sentinel.Live.{is_live, ReplicaTable, replica_table_doomed}
use velkir.Prelude.{
  ◌≡◌, ◌≢◌, refl, Bool, true, false, List, [], ◌∷◌, Option, none, some, String, arith, eq_iff,
  length, All, count_if,
}
use mathlib.Core.Path.{subst}
use velkir.Controller.Survey.{SurveyedPod}
use velkir.Controller.Recovery.{
  is_empty, one_lineage, tables_doomed, all_surveyed, promotion_pod_view_confirmed,
}

-- A replica whose link is down and which follows this master.
abbrev pub Orphan : String → SurveyedPod → Type 0
Orphan host p = (p.state.link_up ≡ false) × (p.state.master_host ≡ host)

abbrev pub Dead : List String → String → Type 0
Dead live host = (host ≢ "") × (is_live live host ≡ false)

lineage-Orphan :
    (live : List String) (lineage : String) (ps : List SurveyedPod)
    → lineage ≢ ""
    → one_lineage live lineage ps ≡ true
    → All (Orphan lineage) ps
unfolding one_lineage
lineage-Orphan live lineage [] set h = tt
lineage-Orphan live lineage (p ∷ ps) set h =
    let same : p.state.master_host ≡ lineage =
      ground (arith, h, eq_iff lineage "", eq_iff p.state.master_host lineage, set) in
    (
      (ground (arith, h), same),
      lineage-Orphan live lineage ps set
          (subst (λ x. one_lineage live x ps ≡ true) same (ground (arith, h))),
    )

-- All the replicas, of which there is one, follow one dead master.
abbrev pub OneDeadMaster : List String → List SurveyedPod → Type 0
OneDeadMaster live ps = (host : String) × Dead live host × All (Orphan host) ps

pub one_lineage-OneDeadMaster :
    (live : List String) (ps : List SurveyedPod)
    → is_empty ps ≡ false
    → one_lineage live "" ps ≡ true
    → OneDeadMaster live ps
unfolding one_lineage
one_lineage-OneDeadMaster live [] full h = cc
one_lineage-OneDeadMaster live (p ∷ ps) full h =
    let set : p.state.master_host ≢ "" = λ e. ground (arith, h, eq_iff p.state.master_host "", e) in
    (
      p.state.master_host,
      (set, ground (arith, h)),
      (
        (ground (arith, h), refl),
        lineage-Orphan live p.state.master_host ps set (ground (arith, h)),
      ),
    )

-- A sentinel's table, if it was read, names no live pod.
abbrev pub Doomed : List String → ReplicaTable → Type 0
Doomed live none = Unit
Doomed live (some ips) = All (λ ip. is_live live ip ≡ false) ips

abbrev pub was_read : ReplicaTable → Bool
was_read none = false
was_read (some ips) = true

table-Doomed :
    (live ips : List String)
    → replica_table_doomed live ips ≡ true
    → All (λ ip. is_live live ip ≡ false) ips
unfolding replica_table_doomed
table-Doomed live [] h = tt
table-Doomed live (ip ∷ ips) h = (ground (arith, h), table-Doomed live ips (ground (arith, h)))

pub tables-Doomed :
    (live : List String) (ts : List ReplicaTable)
    → (tables_doomed live ts).0 ≡ true
    → All (Doomed live) ts
unfolding tables_doomed
tables-Doomed live [] h = tt
tables-Doomed live (none ∷ ts) h = (tt, tables-Doomed live ts h)
tables-Doomed live (some t ∷ ts) h =
    (table-Doomed live t (ground (arith, h)), tables-Doomed live ts (ground (arith, h)))

pub tables-read :
    (live : List String) (ts : List ReplicaTable) → (tables_doomed live ts).1 ≡ count_if was_read ts
unfolding tables_doomed
tables-read live [] = refl
tables-read live (none ∷ ts) = tables-read live ts
tables-read live (some t ∷ ts) = omega (arith, tables-read live ts)

abbrev pub Live : List String → String → Type 0
Live live ip = (ip ≢ "") × (is_live live ip ≡ true)

all_surveyed-Live : (live ips : List String) → all_surveyed live ips ≡ true → All (Live live) ips
unfolding all_surveyed
all_surveyed-Live live [] h = tt
all_surveyed-Live live (ip ∷ ips) h = (
  (λ e. ground (arith, h, eq_iff ip "", e), ground (arith, h)),
  all_surveyed-Live live ips (ground (arith, h)),
)

-- The pods that the API server lists are those of the survey.
abbrev pub SameView : List String → Option (List String) → Type 0
SameView live none = ⊥
SameView live (some ips) = (length ips ≡ length live) × All (Live live) ips

pub confirmed-SameView :
    (live : List String) (view : Option (List String))
    → promotion_pod_view_confirmed live view ≡ true
    → SameView live view
unfolding promotion_pod_view_confirmed
confirmed-SameView live none h = cc
confirmed-SameView live (some ips) h =
    (ground (arith, h), all_surveyed-Live live ips (ground (arith, h)))
