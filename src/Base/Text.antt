-- ===== src/Base/Text.antt =====
-- What the program uses of Go's strings, strconv and filepath packages. A text is a list of
-- characters; case folding and white space are those of ASCII.
mod Digits
mod Strings
mod Paths
unfoldable pub use Digits.*
unfoldable pub use Strings.*
unfoldable pub use Paths.*
