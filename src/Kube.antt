-- ===== src/Kube.antt =====
-- The Kubernetes objects that the operator reads and writes (k8s.io/api, a library): of each type
-- the fields that the program uses. A field that the program only carries from one object to
-- another is `Raw`, its text. A nil map, slice or pointer that the program tells from an empty one
-- is an `Option`.
mod Meta
mod Pods
mod Workloads
pub mod Client
unfoldable pub use Meta.*
pub use Pods.*
pub use Workloads.*
