-- ===== src/Templates/Pods.antt =====
-- The parts of a pod template: pkg/k8sutils/templates/pod/spec.go.
pub mod Envs
pub mod Context
use starrocks_kubernetes_ope.Base.{
  String, ℤ, pos, Option, none, some, List, [], ◌∷◌, ◌++◌, Dict, insert_all, or_else, Bool, false,
  ok, if◌then◌else◌, ◌<>◌, Result, true,
}
use starrocks_kubernetes_ope.Kube.{
  Container, ContainerPort, EnvVar, Lifecycle, LifecycleHandler, exec, PodSpec, Volume,
}
use starrocks_kubernetes_ope.Api.{
  SpecKind, fe, be, cn, fe_proxy, Spec, fe_spec, be_spec, cn_spec, fe_proxy_spec, load_of,
  equals_ignore_case, get_command, get_args, get_sidecars, get_init_containers, get_host_aliases,
  get_termination_grace_period_seconds,
}
use starrocks_kubernetes_ope.K8sutils.Config.Ports.{
  get_port, http_port, rpc_port, query_port, be_port, webserver_port, heartbeat_service_port,
  brpc_port, thrift_port,
}
use starrocks_kubernetes_ope.Templates.Names.{load_selector}
use starrocks_kubernetes_ope.Templates.Versions.{get_image_version, is_lower_than_any}

-- LifeCycle
unfoldable pub life_cycle : Option Lifecycle → (pre_stop_command : List String) → Lifecycle
life_cycle none command = record { post_start = none; pre_stop = some (exec command) }
life_cycle (some hooks) command = record {
  post_start = hooks.post_start;
  pre_stop = some (or_else hooks.pre_stop (exec command));
}

-- Labels, for a specification with these PodLabels; those of a nil pointer are none
unfoldable pub labels_of_pods : (cluster_name : String) → SpecKind → Dict String → Dict String
unfolding load_selector insert_all
labels_of_pods cluster_name kind pod_labels =
    insert_all pod_labels (load_selector cluster_name kind)

-- Annotations
unfoldable pub annotations_of_pods : Spec → Dict String
unfolding insert_all
annotations_of_pods spec = insert_all (load_of spec).annotations []

abbrev tcp : (name : String) → ℤ → ContainerPort
tcp name port = record { name = name; container_port = port; protocol = "TCP" }

-- Ports
unfoldable pub container_ports : SpecKind → Dict String → List ContainerPort
unfolding get_port
container_ports fe config =
    tcp "http-port" (get_port config http_port)
    ∷ tcp "rpc-port" (get_port config rpc_port)
    ∷ tcp "query-port" (get_port config query_port)
    ∷ []
container_ports be config =
    record { name = "be-port"; container_port = get_port config be_port; protocol = "" }
    ∷ tcp "webserver-port" (get_port config webserver_port)
    ∷ tcp "heartbeat-port" (get_port config heartbeat_service_port)
    ∷ tcp "brpc-port" (get_port config brpc_port)
    ∷ []
container_ports cn config =
    tcp "thrift-port" (get_port config thrift_port)
    ∷ tcp "webserver-port" (get_port config webserver_port)
    ∷ tcp "heartbeat-port" (get_port config heartbeat_service_port)
    ∷ tcp "brpc-port" (get_port config brpc_port)
    ∷ []
container_ports fe_proxy config = tcp "http-port" (pos 8080) ∷ []

-- Spec; the security context is set by the callers
unfoldable pub make_pod_spec : Spec → Container → List Volume → PodSpec
unfolding get_sidecars get_init_containers get_termination_grace_period_seconds get_host_aliases
make_pod_spec spec container volumes = record {
  init_containers = get_init_containers spec;
  containers = container ∷ get_sidecars spec;
  volumes = volumes;
  service_account_name = (load_of spec).service_account;
  termination_grace_period_seconds = get_termination_grace_period_seconds spec;
  affinity = (load_of spec).affinity;
  topology_spread_constraints = (load_of spec).topology_spread_constraints;
  tolerations = (load_of spec).tolerations;
  image_pull_secrets = (load_of spec).image_pull_secrets;
  node_selector = (load_of spec).node_selector;
  host_aliases = get_host_aliases spec;
  scheduler_name = (load_of spec).scheduler_name;
  automount_service_account_token = some false;
  share_process_namespace = (load_of spec).share_process_namespace;
  security_context = none;
}

-- GetStarRocksDefaultRootPath
abbrev pub default_root_path : String
default_root_path = "/opt/starrocks"

-- GetStarRocksRootPath
unfoldable pub root_path : List EnvVar → String
root_path [] = default_root_path
root_path (env ∷ envs) =
    let rest = root_path envs in
    if equals_ignore_case env.name "STARROCKS_ROOT" then env.value else rest

-- GetStorageDir
unfoldable pub storage_dir : Spec → String
unfolding root_path
storage_dir (fe_spec s) = root_path s.fe_env_vars <> "/fe/meta"
storage_dir (be_spec s) = root_path s.be_env_vars <> "/be/storage"
storage_dir (cn_spec s) = root_path s.cn_env_vars <> "/cn/storage"
storage_dir (fe_proxy_spec s) = ""

-- GetLogDir
unfoldable pub log_dir : Spec → String
unfolding root_path
log_dir (fe_spec s) = root_path s.fe_env_vars <> "/fe/log"
log_dir (be_spec s) = root_path s.be_env_vars <> "/be/log"
log_dir (cn_spec s) = root_path s.cn_env_vars <> "/cn/log"
log_dir (fe_proxy_spec s) = ""

-- GetConfigDir
unfoldable pub config_dir : Spec → String
unfolding root_path
config_dir (fe_spec s) = root_path s.fe_env_vars <> "/fe/conf"
config_dir (be_spec s) = root_path s.be_env_vars <> "/be/conf"
config_dir (cn_spec s) = root_path s.cn_env_vars <> "/cn/conf"
config_dir (fe_proxy_spec s) = ""

-- getDefaultEntrypointScript
unfoldable pub default_entrypoint_script : Spec → String
unfolding root_path
default_entrypoint_script (fe_spec s) = root_path s.fe_env_vars <> "/fe_entrypoint.sh"
default_entrypoint_script (be_spec s) = root_path s.be_env_vars <> "/be_entrypoint.sh"
default_entrypoint_script (cn_spec s) = root_path s.cn_env_vars <> "/cn_entrypoint.sh"
default_entrypoint_script (fe_proxy_spec s) = ""

-- The flag of the stop scripts, which images before these versions do not know; a version that
-- cannot be compared counts as new.
graceful : (image : String) → List String → String
unfolding get_image_version is_lower_than_any
graceful image versions = elim (is_lower_than_any (get_image_version image) versions) [
  | ok true ↦ ""
  | _ ↦ " -g"
]

stop_script : Spec → List String
unfolding graceful root_path
stop_script (fe_spec s) = (root_path s.fe_env_vars <> "/fe/bin/stop_fe.sh -g") ∷ []
stop_script (be_spec s) =
    (root_path s.be_env_vars
      <> "/be/bin/stop_be.sh"
      <> graceful s.image ("3.3.19" ∷ "3.4.8" ∷ "3.5.6" ∷ []))
    ∷ []
stop_script (cn_spec s) =
    (root_path s.cn_env_vars
      <> "/cn/bin/stop_cn.sh"
      <> graceful s.image ("3.3.17" ∷ "3.4.6" ∷ "3.5.2" ∷ []))
    ∷ []
stop_script (fe_proxy_spec s) = []

-- GetPreStopCommand
unfoldable pub pre_stop_command : Spec → List String
unfolding stop_script
pre_stop_command spec = "/bin/bash" ∷ "-c" ∷ stop_script spec

-- ContainerCommand
unfoldable pub container_command : Spec → List String
unfolding get_command default_entrypoint_script
container_command spec = or_else (get_command spec) (default_entrypoint_script spec ∷ [])

-- ContainerArgs
unfoldable pub container_args : Spec → List String
unfolding get_args
container_args spec = or_else (get_args spec) ("$(FE_SERVICE_NAME)" ∷ [])
