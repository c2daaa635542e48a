-- ===== src/Api.antt =====
-- The custom resources of the operator: pkg/apis/starrocks/v1.
mod Services
mod Volumes
mod AutoScale
mod Specs
mod Resources
mod Getters
pub mod Validation
unfoldable pub use Services.*
unfoldable pub use Volumes.*
unfoldable pub use AutoScale.*
pub use Specs.*
unfoldable pub use Resources.*
unfoldable pub use Getters.*
