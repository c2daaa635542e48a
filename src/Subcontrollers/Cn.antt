-- ===== src/Subcontrollers/Cn.antt =====
-- The CN sub-controller: pkg/subcontrollers/cn.
pub mod Policy
pub mod SslMode
pub mod ComputeNodes
pub mod Warehouses
pub mod AutoScaler
pub mod Sync
