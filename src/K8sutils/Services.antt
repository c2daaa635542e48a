-- ===== src/K8sutils/Services.antt =====
-- The services of a component: BuildExternalService of pkg/common/resource_utils/service.go and
-- MakeSearchService of pkg/k8sutils/templates/service/spec.go.
pub mod Laws
use starrocks_kubernetes_ope.Base.{
  String, ℤ, pos, Option, none, some, List, [], ◌∷◌, ◌++◌, Dict, insert, insert_all, or_else, Bool,
  true, false, eqz, if◌then◌else◌, ◌&&◌, ◌||◌, not,
}
use starrocks_kubernetes_ope.Kube.{
  ObjectMeta, Service, ServiceSpec, ServicePort, OwnerReference, annotate,
}
use starrocks_kubernetes_ope.Kube.Client.{Client}
use starrocks_kubernetes_ope.Api.{
  StarRocksService, StarRocksServicePort, SpecKind, fe, be, cn, fe_proxy, type_or_cluster_ip,
  takes_traffic_policy,
}
use starrocks_kubernetes_ope.K8sutils.Config.Ports.{
  get_port, http_port, rpc_port, query_port, edit_log_port, arrow_flight_port, be_port,
  webserver_port, heartbeat_service_port, brpc_port, thrift_port,
}
use starrocks_kubernetes_ope.K8sutils.Equality.{
  HashService, service_hash_object, component_resource_hash,
}
use starrocks_kubernetes_ope.Templates.Names.{StarRocksObject, external_service_name}
use text.Mathlib.Text.{◌==◌}

-- The numbers that the user's port sets, over those of the default port.
override : (user default_port : StarRocksServicePort) → StarRocksServicePort
override user default_port = record default_port {
  node_port = if not (eqz user.node_port (pos 0)) then user.node_port else default_port.node_port;
  port = if not (eqz user.port (pos 0)) then user.port else default_port.port;
}

-- The second loop of mergePort.
merge_by_name : List StarRocksServicePort → StarRocksServicePort → StarRocksServicePort
unfolding override
merge_by_name [] default_port = default_port
merge_by_name (user ∷ users) default_port =
    let rest = merge_by_name users default_port in
    if user.name == default_port.name then override user default_port else rest

-- The first loop of mergePort, with what follows it.
merge_by_port :
    List StarRocksServicePort
    → (otherwise default_port : StarRocksServicePort) → StarRocksServicePort
unfolding override
merge_by_port [] otherwise default_port = otherwise
merge_by_port (user ∷ users) otherwise default_port =
    let rest = merge_by_port users otherwise default_port in
    if eqz user.container_port default_port.container_port then override user default_port else rest

merge_ports_of : Option (List StarRocksServicePort) → StarRocksServicePort → StarRocksServicePort
unfolding merge_by_port merge_by_name
merge_ports_of none default_port = default_port
merge_ports_of (some users) default_port =
    merge_by_port users (merge_by_name users default_port) default_port

-- mergePort
unfoldable pub merge_port : Option StarRocksService → StarRocksServicePort → StarRocksServicePort
unfolding merge_ports_of
merge_port none default_port = default_port
merge_port (some svc) default_port = merge_ports_of svc.ports default_port

-- The port that a configuration gives, before the user's are merged in.
abbrev pub plain : (name : String) (port : ℤ) → StarRocksServicePort
plain name port = record { name = name; port = port; container_port = port; node_port = pos 0 }

abbrev arrow_flight : ℤ → List StarRocksServicePort
arrow_flight port = if not (eqz port (pos 0)) then plain "arrow-flight" port ∷ [] else []

-- The default ports in getFeServicePorts, getBeServicePorts, getCnServicePorts and in the branch of
-- the FE proxy.
unfoldable pub plain_ports : SpecKind → Dict String → List StarRocksServicePort
unfolding get_port
plain_ports fe config =
    plain "http" (get_port config http_port)
    ∷ plain "rpc" (get_port config rpc_port)
    ∷ plain "query" (get_port config query_port)
    ∷ plain "edit-log" (get_port config edit_log_port)
    ∷ arrow_flight (get_port config arrow_flight_port)
plain_ports be config =
    plain "be" (get_port config be_port)
    ∷ plain "webserver" (get_port config webserver_port)
    ∷ plain "heartbeat" (get_port config heartbeat_service_port)
    ∷ plain "brpc" (get_port config brpc_port)
    ∷ []
plain_ports cn config =
    plain "thrift" (get_port config thrift_port)
    ∷ plain "webserver" (get_port config webserver_port)
    ∷ plain "heartbeat" (get_port config heartbeat_service_port)
    ∷ plain "brpc" (get_port config brpc_port)
    ∷ []
plain_ports fe_proxy config = plain "http-port" (pos 8080) ∷ []

service_port : StarRocksServicePort → ServicePort
service_port sp = record {
  name = sp.name;
  port = sp.port;
  target_port = sp.container_port;
  node_port = sp.node_port;
  protocol = "TCP";
  app_protocol = if sp.name == "query" then some "mysql" else none;
}

-- The loop over the ports, each merged with the user's.
unfoldable pub service_ports :
    Option StarRocksService → List StarRocksServicePort → List ServicePort
unfolding merge_port service_port
service_ports svc [] = []
service_ports svc (port ∷ ports) = service_port (merge_port svc port) ∷ service_ports svc ports

-- setServiceType
unfoldable pub set_service_type : Option StarRocksService → ServiceSpec → ServiceSpec
set_service_type none spec = record spec { type = "ClusterIP" }
set_service_type (some svc) spec =
    let type = type_or_cluster_ip svc.type in
    record spec {
      type = type;
      load_balancer_ip =
          if type == "LoadBalancer" && not (svc.load_balancer_ip == "")
          then svc.load_balancer_ip
          else spec.load_balancer_ip;
      external_traffic_policy =
          if not (svc.external_traffic_policy == "") && takes_traffic_policy type
          then svc.external_traffic_policy
          else spec.external_traffic_policy;
    }

-- getExternalServiceAnnotations and getExternalServiceLabels
abbrev external_annotations : Option StarRocksService → Dict String
external_annotations none = []
external_annotations (some svc) = or_else svc.annotations []

abbrev external_labels : Option StarRocksService → Dict String
external_labels none = []
external_labels (some svc) = or_else svc.labels []

abbrev source_ranges : Option StarRocksService → Option (List String)
source_ranges none = none
source_ranges (some svc) = svc.load_balancer_source_ranges

abbrev empty_spec : Dict String → ServiceSpec
empty_spec selector = record {
  type = "";
  ports = [];
  selector = selector;
  cluster_ip = "";
  load_balancer_ip = "";
  load_balancer_source_ranges = none;
  external_traffic_policy = "";
  publish_not_ready_addresses = false;
}

-- The service before its hash is recorded.
unfoldable pub unhashed_service :
    StarRocksObject
    → SpecKind
    → Option StarRocksService
    → (config selector labels : Dict String) → Service
unfolding external_service_name insert_all set_service_type service_ports plain_ports
unhashed_service object kind svc config selector labels = record {
  meta = record {
    name = external_service_name object.sub_resource_prefix_name kind;
    namespace = object.meta.namespace;
    uid = "";
    labels = insert_all (external_labels svc) (insert_all labels []);
    annotations = some (external_annotations svc);
    finalizers = none;
    owner_references =
        record {
          api_version = object.api_version;
          kind = object.type_kind;
          name = object.meta.name;
          uid = object.meta.uid;
        }
        ∷ [];
    resource_version = "";
    generation = pos 0;
    deletion_timestamp = none;
  };
  spec = record (set_service_type svc (empty_spec selector)) {
    ports = service_ports svc (plain_ports kind config);
    load_balancer_source_ranges = source_ranges svc;
  };
}

-- BuildExternalService, on the kind and the service of the specification
unfoldable pub build_external_service :
    Client
    → StarRocksObject
    → SpecKind
    → Option StarRocksService
    → (config selector labels : Dict String) → Service
unfolding unhashed_service annotate service_hash_object
build_external_service c object kind svc config selector labels =
    let built = unhashed_service object kind svc config selector labels in
    record built {
      meta =
          annotate component_resource_hash (c.hash_object HashService (service_hash_object built))
            built.meta;
    }

-- MakeSearchService
unfoldable pub make_search_service :
    (name : String) (external : Service) → List ServicePort → (labels : Dict String) → Service
make_search_service name external ports labels = record {
  meta = record (external.meta) { annotations = none; name = name; labels = labels };
  spec = record (empty_spec external.spec.selector) {
    cluster_ip = "None";
    ports = ports;
    publish_not_ready_addresses = true;
  };
}
