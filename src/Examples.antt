-- ===== src/Examples.antt =====
-- Runs of the models at concrete inputs, one for each theorem with a hypothesis.
mod Config
mod Verdicts
mod Reconciler
mod Rollout
mod Conditions
mod Resize
mod Quorum
mod Roles
mod Observer
mod Images
mod Wire
mod Stranded
