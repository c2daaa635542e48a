-- ===== src/Subcontrollers/Cn/SslMode.antt =====
-- The TLS mode of the connection to the FE: pkg/subcontrollers/cn/cn_mysql_ssl.go. A mode is
-- compared by its character codes, trimmed and in upper case.
pub mod Laws
use starrocks_kubernetes_ope.Base.{
  String, ℕ, List, Bool, Result, ok, err, failure, codes, same_codes, to_upper, trim_space,
  if◌then◌else◌, ◌<>◌, ◌||◌,
}

-- normalizeSSLMode
unfoldable pub normalize_ssl_mode : String → List ℕ
unfolding to_upper trim_space
normalize_ssl_mode mode = to_upper (trim_space (codes mode))

-- Whether a normalised mode is the constant.
abbrev pub is_mode : List ℕ → String → Bool
is_mode mode constant = same_codes mode (codes constant)

-- ValidateSSLMode; the quotes of %q are those of a mode without escapes
unfoldable pub validate_ssl_mode : String → Result (Unit {0})
unfolding normalize_ssl_mode
validate_ssl_mode text =
    let mode = normalize_ssl_mode text in
    if is_mode mode "DISABLED" || is_mode mode "PREFERRED" || is_mode mode "REQUIRED"
    then ok tt
    else if is_mode mode "VERIFY_CA" || is_mode mode "VERIFY_IDENTITY"
    then err (
        failure (
          "ssl mode \"" <> text
          <> "\" is not supported: the keystore FE's documentation generates is self-signed, so neither its certificate chain nor its certificate name can be verified; use REQUIRED to require encryption without certificate verification"))
    else err (
        failure
          ("invalid ssl mode \"" <> text <> "\", must be one of DISABLED, PREFERRED, REQUIRED"))

-- sslModeDSNSuffix
unfoldable pub ssl_mode_dsn_suffix : String → String
unfolding normalize_ssl_mode
ssl_mode_dsn_suffix text =
    let mode = normalize_ssl_mode text in
    if is_mode mode "PREFERRED"
    then "?tls=preferred"
    else if is_mode mode "REQUIRED"
    then "?tls=skip-verify"
    else ""
