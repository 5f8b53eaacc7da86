-- ===== src/Controller.antt =====
-- internal/controller: the part of the reconciler that decides around the rollout state machine.
pub mod Pods
pub mod Quorum
pub mod Latch
pub mod DeriveState
pub mod Dispatch
pub mod Fsm
pub mod Resize
pub mod Recovery
pub mod Survey
pub mod Roles
pub mod Wedge
pub mod Pacing
pub mod RolloutTrigger
pub mod Trackers
