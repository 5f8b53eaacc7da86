-- ===== src/Sentinel.antt =====
-- internal/sentinel: what the observer publishes, and the decisions taken on it.
pub mod Types
pub mod Observer
pub mod TripleCheck
pub mod SurgeryGuard
pub mod Live
pub mod Stranded
pub mod Wire
