-- ===== src/Subcontrollers.antt =====
-- The sub-controllers: pkg/subcontrollers.
pub mod Status
pub mod Clear
pub mod Progress
pub mod Fe
pub mod Cn
pub mod PodTemplates
pub mod Be
pub mod FeProxy
pub mod Instances
