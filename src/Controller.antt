-- ===== src/Controller.antt =====
-- controllers/controlplane/kopscontrolplane_controller.go: the reconciler of control planes.
pub mod State
pub mod Pools
pub mod Files
pub mod Owner
pub mod Body
pub mod Delete
pub mod Apply
pub mod Deferred
pub mod Reconcile
pub mod Effects
pub mod Writing
pub mod Keeps
pub mod Steps
pub mod Leads
pub mod Lock
pub mod Discipline
pub mod Whole
pub mod Safety
pub mod Reach
pub mod DryRun
pub mod Released
pub mod Groups
pub mod Ready
pub mod Named
pub mod Finalizer
pub mod Finalized
pub mod Granted
pub mod Back
pub mod Counted
pub mod Statuses
pub mod Paused
pub mod Kept
pub mod Marks
pub mod Restores
pub mod Watches
pub mod Written
