-- ===== src/Orchestration.antt =====
-- internal/orchestration: the rollout state machine, its watchdog and the status conditions.
pub mod Machine
pub mod Watchdog
pub mod Observation
pub mod Evaluators
pub mod Degraded
pub mod Status
