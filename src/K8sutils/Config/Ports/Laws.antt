-- ===== src/K8sutils/Config/Ports/Laws.antt =====
-- Ports that pass through a configuration: pkg/common/resource_utils/configmap.go, and the entry
-- for the query port that the BE and CN sub-controllers add to their configuration.
use starrocks_kubernetes_ope.Base.{
  String, ℤ, pos, Option, none, some, Dict, lookup, insert, lookup-insert, or_else, parse_int,
  format_int, parse_int-format_int, parse_int-FitsBits, FitsBits, eqz, eqz_iff, ◌≡◌, ◌≢◌, refl,
  arith, Bool-cases, inl, inr,
}
use starrocks_kubernetes_ope.K8sutils.Config.Ports.{
  configured_port, port_of_text, get_plain_port, get_port, default_port, nonzero, query_port,
  http_port,
}
use text.Mathlib.TextPositions.{eq_refl}

-- A port that can be written into an int32 and is not the "no port" of the configuration.
abbrev IsUsable : ℤ → Type 0
IsUsable port = FitsBits 32 port × (port ≢ pos 0)

nonzero-IsUsable :
    (o : Option ℤ) {port : ℤ}
    → ((n : ℤ) → o ≡ some n → FitsBits 32 n)
    → nonzero o ≡ some port
    → IsUsable port
unfolding nonzero
nonzero-IsUsable none fits h = cc
nonzero-IsUsable (some n) {port} fits h = elim (Bool-cases (eqz n (pos 0))) [
  | inl zero ↦ ground arith
  | inr other ↦ ground (arith, fits n refl, eqz_iff n (pos 0))
]

port_of_text-IsUsable : (o : Option String) {port : ℤ} → port_of_text o ≡ some port → IsUsable port
unfolding port_of_text
port_of_text-IsUsable none h = cc
port_of_text-IsUsable (some text) h =
    nonzero-IsUsable (parse_int 32 text) (λ n e. parse_int-FitsBits 32 text (omega arith) e) h

configured_port-IsUsable :
    (config : Dict String) (key : String) {port : ℤ}
    → configured_port config key ≡ some port
    → IsUsable port
unfolding configured_port
configured_port-IsUsable config key h = port_of_text-IsUsable (lookup key config) h

or_else-IsUsable :
    (o : Option ℤ) (port : ℤ)
    → ((n : ℤ) → o ≡ some n → IsUsable n)
    → IsUsable port
    → IsUsable (or_else o port)
or_else-IsUsable none port each usable = usable
or_else-IsUsable (some n) port each usable = each n refl

default_query_port-IsUsable : IsUsable (default_port query_port)
unfolding default_port lookup
default_query_port-IsUsable = (omega arith, ground arith)

query_port-IsUsable : (config : Dict String) → IsUsable (get_port config query_port)
unfolding get_port get_plain_port
query_port-IsUsable config =
    or_else-IsUsable (configured_port config query_port) (default_port query_port)
      (λ n e. configured_port-IsUsable config query_port e) default_query_port-IsUsable

nonzero_of_IsUsable : (port : ℤ) → IsUsable port → nonzero (some port) ≡ some port
unfolding nonzero
nonzero_of_IsUsable port usable = ground (arith, usable.1, eqz_iff port (pos 0))

-- A usable port that is printed into a configuration is the port read from it.
configured_port-insert :
    (config : Dict String) (key : String) (port : ℤ)
    → IsUsable port
    → configured_port (insert key (format_int port) config) key ≡ some port
unfolding configured_port port_of_text
configured_port-insert config key port usable =
    rw
      (
        lookup-insert key key (format_int port) config,
        eq_refl key,
        parse_int-format_int 32 port usable.0,
      )
      (nonzero_of_IsUsable port usable)

get_query_port_of_configured :
    (config : Dict String) (port : ℤ)
    → configured_port config query_port ≡ some port
    → get_port config query_port ≡ port
unfolding get_port get_plain_port
get_query_port_of_configured config port e = rw e refl

-- A query port that is printed into a configuration is read from it again.
pub query_port_forwarded :
    (fe_config config : Dict String)
    → get_port (insert query_port (format_int (get_port fe_config query_port)) config) query_port
      ≡ get_port fe_config query_port
query_port_forwarded fe_config config =
    let port = get_port fe_config query_port in
    get_query_port_of_configured (insert query_port (format_int port) config) port
      (configured_port-insert config query_port port (query_port-IsUsable fe_config))

-- The port for HTTP, printed into a configuration, does not touch the query port.
pub query_port_beside_http :
    (config : Dict String) (text : String)
    → get_port (insert http_port text config) query_port ≡ get_port config query_port
unfolding get_port get_plain_port configured_port
query_port_beside_http config text = rw (lookup-insert http_port query_port text config) refl
