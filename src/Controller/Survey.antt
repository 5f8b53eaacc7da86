-- ===== src/Controller/Survey.antt =====
-- internal/controller/valkey_controller.go: the survey of the pods. What a pod answers to INFO is a
-- parameter.
use velkir.Sentinel.Live.{is_live}
use velkir.Prelude.{
  ℕ, ◌+◌, Bool, true, false, List, [], ◌∷◌, ◌++◌, Option, none, some, String, str_eq, if◌then◌else◌,
}
use velkir.Prelude.Int.{ℤ}
use velkir.Controller.Pods.{Pod}

-- The part of an INFO reply that the election reads; the offset is there if the reply has its field.
pub record Info : Type 0 where
  pub is_master : Bool
  pub link_up : Bool
  pub master_host : String
  pub slave_repl_offset : Option ℤ

pub record SurveyedPod : Type 0 where
  pub name : String
  pub ip : String
  pub state : Info

pub record Survey : Type 0 where
  pub live_pod_ips : List String
  pub pending_pods : ℕ
  pub dialed : Bool
  pub masters : List SurveyedPod
  pub replicas : List SurveyedPod
  pub dial_failures : ℕ

-- A set of addresses, as a list that holds none twice.
unfoldable pub insert : String → List String → List String
insert ip ips = if is_live ips ip then ips else ip ∷ ips

unfoldable pub new_survey_from_pods : List Pod → Survey
new_survey_from_pods [] = record {
  live_pod_ips = [];
  pending_pods = 0;
  dialed = false;
  masters = [];
  replicas = [];
  dial_failures = 0;
}
new_survey_from_pods (p ∷ ps) =
    let s = new_survey_from_pods ps in
    if str_eq p.ip ""
    then record s { pending_pods = s.pending_pods + 1 }
    else record s { live_pod_ips = insert p.ip s.live_pod_ips }

-- What the survey learns of one pod.
unfoldable pub dial_one : Pod → Option Info → Survey → Survey
dial_one p none s = record s { dial_failures = s.dial_failures + 1 }
dial_one p (some st) s =
    let sp : SurveyedPod = record { name = p.name; ip = p.ip; state = st } in
    if st.is_master
    then record s { masters = s.masters ++ sp ∷ [] }
    else record s { replicas = s.replicas ++ sp ∷ [] }

unfoldable pub dial_pods : (Pod → Option Info) → List Pod → Survey → Survey
dial_pods check [] s = s
dial_pods check (p ∷ ps) s =
    dial_pods check ps (if str_eq p.ip "" then s else dial_one p (check p) s)

unfoldable pub dial_valkey_survey : (Pod → Option Info) → List Pod → Survey → Survey
dial_valkey_survey check ps s = dial_pods check ps (record s { dialed = true })
