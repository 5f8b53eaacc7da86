-- ===== src/Orchestration/Watchdog.antt =====
-- internal/orchestration/watchdog.go: the deadline by which a deleted pod must be back.
-- The substate is a pointer in the source; nil is `none`.
pub mod Rearm
use velkir.Prelude.{Bool, true, false, not, ◌&&◌, Option, none, some, String, str_eq, if◌then◌else◌}
use velkir.Prelude.Int.{ℤ, pos, min_ℤ, max_ℤ}
use velkir.Prelude.Time.{Time, time_add, before, zero_time, scale}

pub record MasterAwareRolloutStatus : Type 0 where
  pub waiting_for_pod : String
  pub deadline : Option Time
  pub deleted_at : Option Time

pub record Verdict : Type 0 where
  pub active : Bool
  pub expired : Bool
  pub pod_name : String
  pub deadline : Time

abbrev pub inactive : Verdict
inactive = record { active = false; expired = false; pod_name = ""; deadline = zero_time }

abbrev is_set : Option Time → Bool
is_set none = false
is_set (some t) = true

armed_verdict : Time → String → Option Time → Verdict
armed_verdict now pod none = inactive
armed_verdict now pod (some d) =
    if str_eq pod ""
    then inactive
    else record { active = true; expired = not (before now d); pod_name = pod; deadline = d }

unfoldable pub check : Time → Option MasterAwareRolloutStatus → Verdict
unfolding armed_verdict
check now none = inactive
check now (some status) = armed_verdict now status.waiting_for_pod status.deadline

abbrev pub min_timeout_sec : ℤ
min_timeout_sec = pos 60

abbrev pub max_timeout_sec : ℤ
max_timeout_sec = pos 3600

abbrev pub clamp_timeout : ℤ → ℤ
clamp_timeout timeout_seconds = min_ℤ max_timeout_sec (max_ℤ min_timeout_sec timeout_seconds)

stamp : Time → String → ℤ → MasterAwareRolloutStatus
stamp now pod timeout_seconds = record {
  waiting_for_pod = pod;
  deadline = some (time_add now (scale (clamp_timeout timeout_seconds)));
  deleted_at = some now;
}

unfoldable pub arm : Time → String → ℤ → Option MasterAwareRolloutStatus → MasterAwareRolloutStatus
unfolding stamp
arm now pod timeout_seconds none = stamp now pod timeout_seconds
arm now pod timeout_seconds (some existing) =
    if str_eq existing.waiting_for_pod pod && is_set existing.deadline
    then existing
    else stamp now pod timeout_seconds

unfoldable pub disarm : MasterAwareRolloutStatus
disarm = record { waiting_for_pod = ""; deadline = none; deleted_at = none }
