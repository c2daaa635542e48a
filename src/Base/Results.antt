-- ===== src/Base/Results.antt =====
-- Results of fallible Go code: a value, an error, or a panic, which no caller handles as an error.
pub mod Fallible
pub mod Stateful
mod Errors
unfoldable pub use Errors.*
