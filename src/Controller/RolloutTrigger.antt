-- ===== src/Controller/RolloutTrigger.antt =====
-- internal/controller/rollout_trigger.go: the edges of a pending rollout.
pub mod Edges
use velkir.Prelude.{
  Bool, false, not, ◌&&◌, List, [], ◌∷◌, Option, none, some, String, str_eq, if◌then◌else◌,
}

pub record RolloutTriggerState : Type 0 where
  pub last_was_pending : Bool
  pub last_target : String

pub record RolloutTriggerSignal : Type 0 where
  pub edge : Bool
  pub mid_rollout_change : Bool

-- What reading the StatefulSet gives: an error, no object, or its update and current revisions.
pub data StsRead : Type 0 where
  failed missing : StsRead
  revisions : String → String → StsRead

unfoldable pub is_pending : String → String → Bool
is_pending target current = not (str_eq target "") && not (str_eq target current)

abbrev pub no_signal : RolloutTriggerSignal
no_signal = record { edge = false; mid_rollout_change = false }

unfoldable pub signal_of : RolloutTriggerState → String → String → RolloutTriggerSignal
signal_of tr target current = record {
  edge = is_pending target current && not tr.last_was_pending;
  mid_rollout_change =
      is_pending target current
      && (tr.last_was_pending
          && (not (str_eq tr.last_target "") && not (str_eq target tr.last_target)));
}

unfoldable pub tracked : String → String → RolloutTriggerState
tracked target current = record {
  last_was_pending = is_pending target current;
  last_target = if is_pending target current then target else "";
}

-- `rolloutTriggerEdge`: the signal, or `none` for an error, and the tracker that is left.
unfoldable pub rollout_trigger_edge :
    RolloutTriggerState → StsRead → Option RolloutTriggerSignal × RolloutTriggerState
rollout_trigger_edge tr failed = (none, tr)
rollout_trigger_edge tr missing = (some no_signal, tr)
rollout_trigger_edge tr (revisions target current) =
    (some (signal_of tr target current), tracked target current)

unfoldable pub track_all : RolloutTriggerState → List StsRead → RolloutTriggerState
track_all tr [] = tr
track_all tr (r ∷ rs) = track_all (rollout_trigger_edge tr r).1 rs
