-- ===== src/Tests.antt =====
-- The statements of the library at concrete inputs.
mod Fixtures
mod Api
mod Objects
mod Workloads
mod Recovery
mod Sorting
mod Nodes
mod Reconcilers
mod Sync
mod Templates
mod Scripts
