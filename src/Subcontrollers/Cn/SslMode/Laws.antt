-- ===== src/Subcontrollers/Cn/SslMode/Laws.antt =====
-- Which modes are accepted, and what they put into the data source name:
-- pkg/subcontrollers/cn/cn_mysql_ssl.go.
use starrocks_kubernetes_ope.Base.{String, ok, true, ◌≡◌, arith, ◌⊎◌}
use starrocks_kubernetes_ope.Subcontrollers.Cn.SslMode.{
  normalize_ssl_mode, is_mode, validate_ssl_mode, ssl_mode_dsn_suffix,
}

-- An accepted mode connects in one of the three documented ways: without TLS only where it says
-- DISABLED, with a fallback to plain text only where it says PREFERRED, else with TLS.
pub validate_ssl_mode-suffix :
    (mode : String)
    → validate_ssl_mode mode ≡ ok tt
    → ((is_mode (normalize_ssl_mode mode) "DISABLED" ≡ true)
        ⊎ (ssl_mode_dsn_suffix mode ≡ "?tls=skip-verify"))
      ⊎ ((is_mode (normalize_ssl_mode mode) "PREFERRED" ≡ true)
          × (ssl_mode_dsn_suffix mode ≡ "?tls=preferred"))
unfolding validate_ssl_mode ssl_mode_dsn_suffix
validate_ssl_mode-suffix mode h = ground arith
