-- ===== src/K8sutils.antt =====
-- Creating, patching and deleting Kubernetes objects: pkg/k8sutils/k8sutils.go.
pub mod Version
pub mod Objects
pub mod Equality
pub mod Apply
pub mod Delete
pub mod Config
pub mod Volumes
pub mod Merge
pub mod Services
pub mod Autoscaler
