-- ===== src/Controllers.antt =====
-- The reconcilers and the event filter: pkg/controllers and pkg/predicates.
pub mod Predicates
pub mod Cluster
pub mod Warehouse
