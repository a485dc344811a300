-- ===== src/Examples.antt =====
-- The theorems at concrete inputs, and tests.
mod Approvals
mod Proposals
mod Batches
mod Windows
mod Leases
mod Locks
mod Vms
mod Recoveries
mod Executions
mod Cleanups
mod Detections
mod Restarts
mod Patchings
mod Hygienes
mod Waves
