-- ===== src/Templates.antt =====
-- The templates of pkg/k8sutils/templates and the names and labels of pkg/k8sutils/load.
pub mod Rollout
pub mod PodCount
pub mod Versions
pub mod Probes
pub mod Names
pub mod Mounts
pub mod Pods
pub mod Workloads
