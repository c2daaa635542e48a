-- ===== src/Tests/Fixtures.antt =====
-- A cluster with one FE, and an API server that holds one object of a kind.
use starrocks_kubernetes_ope.Base.{
  String, ℤ, pos, Option, none, some, List, [], ◌∷◌, Bool, true, false, Result, ok, err, not_found,
  failure,
}
use starrocks_kubernetes_ope.Kube.{
  ObjectMeta, Service, StatefulSet, Deployment, Pod, PodTemplateSpec, Container, PodSpec,
  pod_running, HorizontalPodAutoscaler, HpaVersion, hpa_v2beta2,
}
use starrocks_kubernetes_ope.Kube.Client.{Client, Store, Settings}
use starrocks_kubernetes_ope.K8sutils.Delete.{unfilled_hpa}
use starrocks_kubernetes_ope.Api.{
  StarRocksLoadSpec, StarRocksFeSpec, StarRocksCluster, StarRocksWarehouse, DisasterRecovery,
  phase_unset,
}

abbrev pub meta : String → ObjectMeta
meta name = record {
  name = name;
  namespace = "db";
  uid = "";
  labels = [];
  annotations = none;
  finalizers = none;
  owner_references = [];
  resource_version = "1";
  generation = pos 2;
  deletion_timestamp = none;
}

abbrev pub container : Container
container = record {
  name = "fe";
  image = "fe:3.1.0";
  command = none;
  args = none;
  working_dir = "";
  ports = [];
  env = record { name = "FE_SERVICE_NAME"; value = "fe-service"; value_from = none } ∷ [];
  resources = "";
  volume_mounts = [];
  image_pull_policy = "";
  startup_probe = none;
  liveness_probe = none;
  readiness_probe = none;
  lifecycle = none;
  security_context = none;
}

abbrev pub pod_spec : PodSpec
pod_spec = record {
  init_containers = [];
  containers = container ∷ [];
  volumes = [];
  service_account_name = "";
  termination_grace_period_seconds = none;
  affinity = none;
  topology_spread_constraints = [];
  tolerations = [];
  image_pull_secrets = [];
  node_selector = [];
  host_aliases = [];
  scheduler_name = "";
  automount_service_account_token = none;
  share_process_namespace = none;
  security_context = none;
}

abbrev pub template : PodTemplateSpec
template = record { name = ""; namespace = ""; labels = []; annotations = []; spec = pod_spec }

-- Three replicas, all of them ready and updated.
abbrev pub set : StatefulSet
set = record {
  meta = meta "sr-fe";
  spec = record {
    replicas = some (pos 3);
    selector = none;
    template = template;
    volume_claim_templates = [];
    service_name = "sr-fe-search";
    pod_management_policy = "Parallel";
    update_strategy = record { type = "RollingUpdate"; rolling_update = none };
    min_ready_seconds = pos 0;
    retention_policy = none;
  };
  status = record {
    observed_generation = pos 2;
    replicas = pos 3;
    ready_replicas = pos 3;
    current_replicas = pos 3;
    updated_replicas = pos 3;
    current_revision = "r2";
    update_revision = "r2";
  };
}

abbrev pub with_replicas : Option ℤ → StatefulSet → StatefulSet
with_replicas n sts = record sts { spec = record (sts.spec) { replicas = n } }

abbrev pub deployment : Deployment
deployment = record {
  meta = meta "sr-fe-proxy";
  spec = record { replicas = some (pos 2); selector = []; template = template };
  status = record {
    observed_generation = pos 2;
    replicas = pos 2;
    updated_replicas = pos 2;
    available_replicas = pos 2;
    conditions = [];
  };
}

abbrev pub service : Service
service = record {
  meta = record (meta "sr-fe-service") {
    annotations = some (("app.starrocks.components/hash", "h1") ∷ []);
  };
  spec = record {
    type = "ClusterIP";
    ports = [];
    selector = [];
    cluster_ip = "";
    load_balancer_ip = "";
    load_balancer_source_ranges = none;
    external_traffic_policy = "";
    publish_not_ready_addresses = false;
  };
}

abbrev pub pod : String → Bool → Pod
pod name ready = record {
  meta = record (meta name) { labels = ("controller-revision-hash", "r2") ∷ [] };
  containers =
      record container {
        env = record { name = "RESTORE_CLUSTER_GENERATION"; value = "7"; value_from = none } ∷ [];
      }
      ∷ [];
  status = record {
    phase = pod_running;
    reason = "";
    container_statuses = record { name = "fe"; ready = ready } ∷ [];
  };
}

abbrev pub load_spec : StarRocksLoadSpec
load_spec = record {
  resources = "";
  annotations = [];
  pod_labels = [];
  replicas = none;
  image = "fe:3.1.0";
  image_pull_policy = "";
  image_pull_secrets = [];
  scheduler_name = "";
  node_selector = [];
  affinity = none;
  tolerations = [];
  topology_spread_constraints = [];
  service = none;
  storage_volumes = [];
  service_account = "";
  config_map_info = record { config_map_name = ""; resolve_key = "" };
  startup_probe_failure_seconds = none;
  liveness_probe_failure_seconds = none;
  readiness_probe_failure_seconds = none;
  lifecycle = none;
  share_process_namespace = none;
}

abbrev pub fe_spec : StarRocksFeSpec
fe_spec = record {
  component = record {
    load = load_spec;
    run_as_non_root = none;
    capabilities = none;
    config_maps = record { name = "cm"; mount_path = "/opt/starrocks/fe/conf"; sub_path = "" } ∷ [];
    secrets = [];
    host_aliases = [];
    termination_grace_period_seconds = none;
    sidecars = [];
    init_containers = [];
    command = none;
    args = none;
    update_strategy = none;
    read_only_root_filesystem = none;
    sysctls = [];
    retention_policy = none;
    min_ready_seconds = none;
    pod_management_policy = "";
  };
  fe_env_vars = [];
}

abbrev pub recovery : DisasterRecovery
recovery = record { enabled = true; generation = pos 7 }

abbrev pub cluster : StarRocksCluster
cluster = record {
  api_version = "starrocks.com/v1";
  kind = "StarRocksCluster";
  meta = meta "sr";
  spec = record {
    fe_spec = some fe_spec;
    be_spec = none;
    cn_spec = none;
    fe_proxy_spec = none;
    disaster_recovery = some recovery;
    wait_for_full_rollout = false;
  };
  status = record {
    phase = phase_unset;
    reason = "";
    fe_status = none;
    be_status = none;
    cn_status = none;
    fe_proxy_status = none;
    disaster_recovery_status = none;
  };
}

abbrev pub warehouse : StarRocksWarehouse
warehouse = record {
  api_version = "starrocks.com/v1";
  kind = "StarRocksWarehouse";
  meta = meta "sr";
  starrocks_cluster = "other";
  template = none;
  status = none;
}

-- The objects of a server, one of each kind, and the statements that the FE has executed.
pub record Server : Type 0 where
  pub sts : Option StatefulSet
  pub svc : Option Service
  pub pods : List Pod
  pub hpa : Option HorizontalPodAutoscaler
  pub statements : List String

abbrev pub server : Server
server = record { sts = none; svc = none; pods = []; hpa = none; statements = [] }

abbrev pub found : {A : Type 0} → Option A → Result A
found none = err (not_found "not found")
found (some a) = ok a

abbrev store : {A : Type 0} → (Server → Option A) → (Option A → Server → Server) → Store Server A
store read write = record {
  get = λ key w. found (read w);
  create = λ o w. (ok o, write (some o) w);
  update = λ o w. (ok tt, write (some o) w);
  patch = λ o text w. (ok o, write (some o) w);
  delete = λ o w. (ok tt, write none w);
  marshal = λ o. ok "{}";
  patch_meta = λ o. ok tt;
  merge = λ last expect actual. ok expect;
}

abbrev hpa_answer : HpaVersion → Result HorizontalPodAutoscaler
hpa_answer hpa_v2beta2 = ok (unfilled_hpa hpa_v2beta2)
hpa_answer version = err (failure "timeout")

abbrev pub client : Client
client = record {
  World = Server;
  services = store (λ w. w.svc) (λ o w. record w { svc = o });
  statefulsets = store (λ w. w.sts) (λ o w. record w { sts = o });
  deployments = store (λ w. none) (λ o w. w);
  config_maps = store (λ w. none) (λ o w. w);
  get_hpa = λ version key w. hpa_answer version;
  create_hpa = λ hpa w. (ok tt, w);
  update_hpa = λ hpa w. (ok tt, w);
  delete_hpa = λ hpa w. (ok tt, w);
  get_endpoints = λ key w. err (not_found "no endpoints");
  get_secret = λ key w. err (not_found "no secret");
  list_pods = λ namespace labels w. ok w.pods;
  retry_on_conflict = λ m. m;
  hash_object = λ A a. "h1";
  read_properties = λ text. ok [];
  parse_quantity = λ text. ok text;
  now = λ w. pos 100;
}

abbrev pub settings : Settings
settings = record {
  kube_major_version = "1";
  kube_minor_version = "30";
  volume_name_with_hash = false;
  dns_domain_suffix = "cluster.local";
  fe_ssl_mode = "DISABLED";
  unsupported_envs = "";
}
