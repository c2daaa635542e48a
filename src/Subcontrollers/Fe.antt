-- ===== src/Subcontrollers/Fe.antt =====
-- The FE sub-controller: pkg/subcontrollers/fe.
pub mod Checks
pub mod Recovery
pub mod Config
pub mod Sync
