-- ===== src/Subcontrollers/Be.antt =====
-- SyncCluster of the BE: pkg/subcontrollers/be/be_controller.go.
pub mod Laws
use starrocks_kubernetes_ope.Base.{
  String, ℤ, pos, Option, none, some, is_some, List, [], ◌∷◌, Dict, insert, Bool, true, false,
  Result, ok, err, panic, eqz, format_int, if◌then◌else◌, not,
}
use starrocks_kubernetes_ope.Base.Results.Stateful.{M, ◌>>=◌, ◌>>◌, pure, read}
use starrocks_kubernetes_ope.Kube.{StatefulSet, Service, ServicePort}
use starrocks_kubernetes_ope.Kube.Client.{Client, Settings}
use starrocks_kubernetes_ope.Api.{
  be, be_spec, SpecKind, StarRocksBeSpec, StarRocksCluster, validate_component,
}
use starrocks_kubernetes_ope.K8sutils.Config.{get_config}
use starrocks_kubernetes_ope.K8sutils.Config.Ports.{
  get_port, query_port, heartbeat_service_port, arrow_flight_port,
}
use starrocks_kubernetes_ope.K8sutils.Equality.{statefulset_deep_equal, service_deep_equal}
use starrocks_kubernetes_ope.K8sutils.Apply.{apply_statefulset, apply_service}
use starrocks_kubernetes_ope.K8sutils.Services.{build_external_service, make_search_service}
use starrocks_kubernetes_ope.Templates.Names.{
  new_from_cluster, load_labels, load_selector, search_service_name,
}
use starrocks_kubernetes_ope.Templates.Pods.{config_dir}
use starrocks_kubernetes_ope.Templates.Workloads.{make_statefulset}
use starrocks_kubernetes_ope.Controllers.Cluster.{Local, on_world}
use starrocks_kubernetes_ope.Subcontrollers.Clear.{be_clear_cluster}
use starrocks_kubernetes_ope.Subcontrollers.PodTemplates.{be_pod_template}
use starrocks_kubernetes_ope.Subcontrollers.Fe.Config.{get_fe_config, may_go_on}
use starrocks_kubernetes_ope.Subcontrollers.Fe.Recovery.{should_enter_disaster_recovery_mode}

abbrev pub node_service_port : (name : String) → ℤ → ServicePort
node_service_port name port = record {
  name = name;
  port = port;
  target_port = port;
  node_port = pos 0;
  protocol = "";
  app_protocol = none;
}

-- The ports of the search service of a BE or a CN.
unfoldable pub node_search_ports : (config : Dict String) → List ServicePort
unfolding get_port
node_search_ports config =
    node_service_port "heartbeat" (get_port config heartbeat_service_port)
    ∷ (if not (eqz (get_port config arrow_flight_port) (pos 0))
        then node_service_port "arrow-flight" (get_port config arrow_flight_port) ∷ []
        else [])

-- `config, _ := …`: after an error the map is nil, which reads as an empty one.
abbrev pub ignoring_error : Result (Dict String) → Result (Dict String)
ignoring_error (err e) = ok []
ignoring_error r = r

-- The query port of the FE, written into the configuration of the BE.
unfoldable pub with_query_port : (fe_config own : Dict String) → Dict String
unfolding insert format_int get_port
with_query_port fe_config own = insert query_port (format_int (get_port fe_config query_port)) own

module _ (c : Client) where
  unfoldable pub be_service : StarRocksCluster → StarRocksBeSpec → (config : Dict String) → Service
  unfolding build_external_service new_from_cluster load_selector load_labels
  be_service src spec config =
      build_external_service c (new_from_cluster src) be spec.service config
        (load_selector src.meta.name be) (load_labels src.meta.name be)

  -- GenerateInternalService
  unfoldable pub be_search_service :
      StarRocksCluster → StarRocksBeSpec → (config : Dict String) → Service
  unfolding make_search_service be_service search_service_name node_search_ports load_labels
  be_search_service src spec config =
      make_search_service (search_service_name src.meta.name be) (be_service src spec config)
        (node_search_ports config) (load_labels src.meta.name be)

  -- GetBeConfig
  unfoldable pub get_be_config :
      (namespace : String) → StarRocksBeSpec → c.World → Result (Dict String)
  unfolding get_config config_dir
  get_be_config namespace spec w =
      get_config c w spec.config_map_info spec.config_maps (config_dir (be_spec spec)) "be.conf"
        namespace

module _ (c : Client) (settings : Settings) where
  -- What follows the checks: the stateful set and the two services.
  unfoldable pub be_deploy :
      StarRocksCluster → StarRocksBeSpec → (fe_config : Dict String) → M c.World (Unit {0})
  unfolding get_be_config with_query_port be_pod_template make_statefulset new_from_cluster
      apply_statefulset apply_service statefulset_deep_equal service_deep_equal be_search_service
      be_service
  be_deploy src spec fe_config = do
    own ← read (get_be_config c src.meta.namespace spec)
    let config = with_query_port fe_config own
    template ← read (λ _. be_pod_template c settings src.meta.namespace src.meta.name spec config)
    sts ← read (λ _. make_statefulset c (new_from_cluster src) (be_spec spec) template)
    deployed ← apply_statefulset c sts true (statefulset_deep_equal c)
    apply_service c (be_search_service c src spec config) (service_deep_equal c)
    apply_service c (be_service c src spec config) (service_deep_equal c)

  unless_recovering :
      StarRocksCluster → (fe_config : Dict String) → M c.World (Unit {0}) → M c.World (Unit {0})
  unfolding should_enter_disaster_recovery_mode
  unless_recovering src fe_config m =
      if is_some (
        should_enter_disaster_recovery_mode src.spec.disaster_recovery
          src.status.disaster_recovery_status fe_config)
      then pure tt
      else m

  -- What follows the wait for the FE.
  unfoldable pub be_sync_ready : StarRocksCluster → StarRocksBeSpec → M c.World (Unit {0})
  unfolding get_fe_config unless_recovering be_deploy
  be_sync_ready src spec = do
    fe_config ← read (λ w. ignoring_error (get_fe_config c src.meta.namespace src.spec.fe_spec w))
    unless_recovering src fe_config (be_deploy src spec fe_config)

  -- SyncCluster of a cluster with this BE
  unfoldable pub be_sync_spec : StarRocksCluster → StarRocksBeSpec → M c.World (Unit {0})
  unfolding validate_component may_go_on be_sync_ready
  be_sync_spec src spec = do
    read (λ _. validate_component spec.component)
    ready ← read (λ w. ok (may_go_on c src w))
    if ready then be_sync_ready src spec else pure tt

  -- SyncCluster
  unfoldable pub be_sync_cluster : M (Local c.World) (Unit {0})
  unfolding be_sync_spec be_clear_cluster
  be_sync_cluster l = elim l.src.spec.be_spec [
    | none ↦ on_world (be_clear_cluster c l.src) l
    | some spec ↦ on_world (be_sync_spec l.src spec) l
  ]
