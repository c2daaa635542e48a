-- ===== src/K8sutils/Config/Ports.antt =====
-- Ports from a configuration: GetPort of pkg/common/resource_utils/configmap.go. The keys are named
-- after the source's constants.
pub mod Laws
use starrocks_kubernetes_ope.Base.{
  String, ℤ, pos, Option, none, some, Dict, lookup, or_else, parse_int, eqz, [], ◌∷◌, if◌then◌else◌,
  not,
}
use text.Mathlib.Text.{◌==◌}

abbrev pub http_port : String
http_port = "http_port"

abbrev pub rpc_port : String
rpc_port = "rpc_port"

abbrev pub query_port : String
query_port = "query_port"

abbrev pub edit_log_port : String
edit_log_port = "edit_log_port"

abbrev pub arrow_flight_port : String
arrow_flight_port = "arrow_flight_port"

abbrev pub thrift_port : String
thrift_port = "thrift_port"

abbrev pub be_port : String
be_port = "be_port"

abbrev pub webserver_port : String
webserver_port = "webserver_port"

abbrev pub be_http_port : String
be_http_port = "be_http_port"

abbrev pub heartbeat_service_port : String
heartbeat_service_port = "heartbeat_service_port"

abbrev pub brpc_port : String
brpc_port = "brpc_port"

-- DefMap
abbrev pub default_ports : Dict ℤ
default_ports =
    (http_port, pos 8030)
    ∷ (rpc_port, pos 9020)
    ∷ (query_port, pos 9030)
    ∷ (edit_log_port, pos 9010)
    ∷ (thrift_port, pos 9060)
    ∷ (be_port, pos 9060)
    ∷ (webserver_port, pos 8040)
    ∷ (be_http_port, pos 8040)
    ∷ (heartbeat_service_port, pos 9050)
    ∷ (brpc_port, pos 8060)
    ∷ []

nonzero : Option ℤ → Option ℤ
nonzero none = none
nonzero (some port) = if eqz port (pos 0) then none else some port

port_of_text : Option String → Option ℤ
unfolding nonzero parse_int
port_of_text none = none
port_of_text (some text) = nonzero (parse_int 32 text)

-- The port that the configuration sets: a number of 32 bits other than 0.
unfoldable pub configured_port : Dict String → String → Option ℤ
unfolding port_of_text lookup
configured_port config key = port_of_text (lookup key config)

default_port : String → ℤ
unfolding lookup
default_port key = or_else (lookup key default_ports) (pos 0)

-- GetPort of a key that has no older name
unfoldable pub get_plain_port : Dict String → String → ℤ
unfolding configured_port default_port
get_plain_port config key = or_else (configured_port config key) (default_port key)

-- GetPort
unfoldable pub get_port : Dict String → String → ℤ
unfolding get_plain_port
get_port config key =
    if key == thrift_port
    then or_else (configured_port config key) (get_plain_port config be_port)
    else if key == webserver_port
    then or_else (configured_port config key) (get_plain_port config be_http_port)
    else get_plain_port config key
