-- ===== src/Subcontrollers/Cn/Sync.antt =====
-- SyncCluster, SyncWarehouse, SyncCnSpec and UpdateWarehouseStatus of the CN:
-- pkg/subcontrollers/cn/cn_controller.go.
pub mod Laws
pub mod Deployable
use starrocks_kubernetes_ope.Base.{
  String, pos, Option, none, some, is_some, List, [], ◌∷◌, Dict, insert, Bool, true, false, Result,
  ok, err, panic, Error, sentinel, is_not_found, err_spec_is_missing,
  err_warehouse_name_is_not_allowed, err_starrocks_cluster_is_missing,
  err_should_run_in_shared_data_mode, err_fe_is_not_ready, format_int, if◌then◌else◌, ◌||◌, not,
}
use starrocks_kubernetes_ope.Base.Results.Stateful.{M, ◌>>=◌, ◌>>◌, pure, fail, read, try}
use starrocks_kubernetes_ope.Kube.{Key, StatefulSet, Service, Pod}
use starrocks_kubernetes_ope.Kube.Client.{Client, Settings}
use starrocks_kubernetes_ope.Api.{
  cn, cn_spec, StarRocksCnSpec, StarRocksCnStatus, StarRocksCluster, StarRocksWarehouse,
  AutoScalingPolicy, WarehouseComponentSpec, component_reconciling, to_cn_spec,
}
use starrocks_kubernetes_ope.K8sutils.Config.{get_config}
use starrocks_kubernetes_ope.K8sutils.Config.Ports.{get_port, query_port, http_port}
use starrocks_kubernetes_ope.K8sutils.Equality.{statefulset_deep_equal, service_deep_equal}
use starrocks_kubernetes_ope.K8sutils.Apply.{apply_statefulset, apply_service}
use starrocks_kubernetes_ope.K8sutils.Services.{build_external_service, make_search_service}
use starrocks_kubernetes_ope.Templates.Names.{
  StarRocksObject, new_from_cluster, new_from_warehouse, load_labels, load_selector,
  search_service_name, cn_statefulset_name, default_name, owner_reference, component_label_key,
}
use starrocks_kubernetes_ope.Templates.Pods.{config_dir}
use starrocks_kubernetes_ope.Templates.Workloads.{make_statefulset}
use starrocks_kubernetes_ope.Controllers.Cluster.{Local, on_world, ClusterClient}
use starrocks_kubernetes_ope.Subcontrollers.Clear.{
  cn_clear_cluster, delete_auto_scaler, scaler_version,
}
use starrocks_kubernetes_ope.Subcontrollers.Be.{node_search_ports}
use starrocks_kubernetes_ope.Subcontrollers.PodTemplates.{Http, cn_pod_template}
use starrocks_kubernetes_ope.Subcontrollers.Fe.Checks.{check_fe_ready, is_run_in_shared_data_mode}
use starrocks_kubernetes_ope.Subcontrollers.Fe.Config.{get_fe_config, may_go_on}
use starrocks_kubernetes_ope.Subcontrollers.Fe.Recovery.{should_enter_disaster_recovery_mode}
use starrocks_kubernetes_ope.Subcontrollers.Cn.Policy.{validate_cn}
use starrocks_kubernetes_ope.Subcontrollers.Cn.AutoScaler.{deploy_auto_scaler}
use starrocks_kubernetes_ope.Subcontrollers.Cn.ComputeNodes.{
  Sql, ComputeNode, sync_compute_nodes_in_fe,
}
use text.Mathlib.Text.{◌==◌}

-- The pods of a List; those of one that is not found are none.
found_pods : Result (List Pod) → Result (List Pod)
found_pods (err e) = if is_not_found e then ok [] else err e
found_pods r = r

module _ (c : Client) (cluster_client : ClusterClient c.World) where
  -- getFeConfig
  unfoldable pub get_fe_config_of : (namespace cluster_name : String) → M c.World (Dict String)
  unfolding get_fe_config
  get_fe_config_of namespace cluster_name = do
    src ← read (cluster_client.get_cluster (record { namespace = namespace; name = cluster_name }))
    read (get_fe_config c src.meta.namespace src.spec.fe_spec)

-- What the CN sub-controller calls: the API server, the FE by SQL and by HTTP.
module _ (c : Client) (settings : Settings) (cluster_client : ClusterClient c.World)
    (sql : Sql c.World ComputeNode) (http : Http c.World) where
  -- GetCnConfig
  unfoldable pub get_cn_config :
      (namespace : String) → StarRocksCnSpec → c.World → Result (Dict String)
  unfolding get_config config_dir
  get_cn_config namespace spec w =
      get_config c w spec.config_map_info spec.config_maps (config_dir (cn_spec spec)) "cn.conf"
        namespace

  -- The ports of the FE, written into the configuration of the CN.
  unfoldable pub with_fe_ports : (fe_config config : Dict String) → Dict String
  unfolding insert format_int get_port
  with_fe_ports fe_config config =
      insert http_port (format_int (get_port fe_config http_port))
        (insert query_port (format_int (get_port fe_config query_port)) config)

  unfoldable pub cn_service : StarRocksObject → StarRocksCnSpec → (config : Dict String) → Service
  unfolding build_external_service load_selector load_labels
  cn_service object spec config =
      build_external_service c object cn spec.service config
        (load_selector object.sub_resource_prefix_name cn)
        (load_labels object.sub_resource_prefix_name cn)

  -- generateInternalService
  unfoldable pub cn_search_service :
      StarRocksObject → StarRocksCnSpec → (config : Dict String) → Service
  unfolding make_search_service cn_service search_service_name node_search_ports load_labels
  cn_search_service object spec config =
      make_search_service (search_service_name object.sub_resource_prefix_name cn)
        (cn_service object spec config) (node_search_ports config)
        (load_labels object.sub_resource_prefix_name cn)

  -- The autoscaler is deployed where there is a policy, and deleted where there is none.
  unfoldable pub sync_auto_scaler :
      StarRocksObject → Option AutoScalingPolicy → Option StarRocksCnStatus → M c.World (Unit {0})
  unfolding deploy_auto_scaler delete_auto_scaler scaler_version
  sync_auto_scaler object (some policy) status = deploy_auto_scaler c settings object policy
  sync_auto_scaler object none status =
      delete_auto_scaler c settings object.meta.namespace object.sub_resource_prefix_name
        (scaler_version c status)

  -- The nodes that the FE knows, for the set that has been applied; an error is only logged.
  unfoldable pub sync_nodes : StarRocksObject → (expect : StatefulSet) → M c.World (Unit {0})
  unfolding cn_statefulset_name insert default_name found_pods sync_compute_nodes_in_fe
  sync_nodes object expect = do
    actual ← read (
        c.statefulsets.get
          (record { namespace = object.meta.namespace; name = cn_statefulset_name object }))
    pods ← read (λ w. found_pods (
        c.list_pods object.meta.namespace
          (insert owner_reference (cn_statefulset_name object)
            (insert component_label_key (default_name cn) []))
          w))
    synced ← try (sync_compute_nodes_in_fe c settings sql object expect actual pods)
    pure tt

  -- The objects of a CN: the stateful set, as ApplyStatefulSet leaves it, and the two services.
  unfoldable pub cn_deploy :
      StarRocksObject → StarRocksCnSpec → (config : Dict String) → M c.World StatefulSet
  unfolding cn_pod_template make_statefulset apply_statefulset apply_service statefulset_deep_equal
      service_deep_equal cn_service cn_search_service
  cn_deploy object spec config = do
    template ← read (cn_pod_template c settings http object spec config)
    sts ← read (λ _. make_statefulset c object (cn_spec spec) template)
    expect ← apply_statefulset c sts true (statefulset_deep_equal c)
    apply_service c (cn_service object spec config) (service_deep_equal c)
    apply_service c (cn_search_service object spec config) (service_deep_equal c)
    pure expect

  -- SyncCnSpec
  unfoldable pub sync_cn_spec :
      StarRocksObject → StarRocksCnSpec → Option StarRocksCnStatus → M c.World (Unit {0})
  unfolding validate_cn get_cn_config get_fe_config_of with_fe_ports cn_deploy sync_auto_scaler
      is_run_in_shared_data_mode sync_nodes
  sync_cn_spec object spec status = do
    read (λ _. validate_cn spec)
    own ← read (get_cn_config object.meta.namespace spec)
    fe_config ← get_fe_config_of c cluster_client object.meta.namespace object.cluster_name
    expect ← cn_deploy object spec (with_fe_ports fe_config own)
    sync_auto_scaler object spec.auto_scaling_policy status
    if is_run_in_shared_data_mode fe_config then sync_nodes object expect else pure tt

  -- What SyncCluster does with a cluster that has a CN, once the FE is ready.
  unfoldable pub cn_sync_ready : StarRocksCluster → StarRocksCnSpec → M c.World (Unit {0})
  unfolding get_fe_config_of should_enter_disaster_recovery_mode sync_cn_spec new_from_cluster
  cn_sync_ready src spec = do
    fe_config ← get_fe_config_of c cluster_client src.meta.namespace src.meta.name
    let due =
        should_enter_disaster_recovery_mode src.spec.disaster_recovery
          src.status.disaster_recovery_status fe_config
    if is_some due then pure tt else sync_cn_spec (new_from_cluster src) spec src.status.cn_status

  unfoldable pub cn_sync_spec : StarRocksCluster → StarRocksCnSpec → M c.World (Unit {0})
  unfolding may_go_on cn_sync_ready
  cn_sync_spec src spec = do
    ready ← read (λ w. ok (may_go_on c src w))
    if ready then cn_sync_ready src spec else pure tt

  -- An error of ClearCluster is only logged.
  cn_sync_absent : StarRocksCluster → M c.World (Unit {0})
  unfolding cn_clear_cluster
  cn_sync_absent src = do cleared ← try (cn_clear_cluster c settings src); pure tt

  -- SyncCluster
  unfoldable pub cn_sync_cluster : M (Local c.World) (Unit {0})
  unfolding cn_sync_spec cn_sync_absent
  cn_sync_cluster l = elim l.src.spec.cn_spec [
    | none ↦ on_world (cn_sync_absent l.src) l
    | some spec ↦ on_world (cn_sync_spec l.src spec) l
  ]

  -- What the cluster of a warehouse must be: there, in shared-data mode, with an FE that is ready.
  cluster_found : Result StarRocksCluster → M c.World (Unit {0})
  cluster_found (ok src) = pure tt
  cluster_found (err e) =
      fail (if is_not_found e then sentinel err_starrocks_cluster_is_missing else e)
  cluster_found (panic p) = read (λ _. panic p)

  require : Bool → Error → M c.World (Unit {0})
  require true e = pure tt
  require false e = fail e

  -- The checks of SyncWarehouse on the cluster.
  unfoldable pub check_cluster : (namespace cluster_name : String) → M c.World (Unit {0})
  unfolding cluster_found require
  check_cluster namespace cluster_name = do
    found ←
        try (
          read (cluster_client.get_cluster (record { namespace = namespace; name = cluster_name })))
    cluster_found found
    fe_config ← get_fe_config_of c cluster_client namespace cluster_name
    require (is_run_in_shared_data_mode fe_config) (sentinel err_should_run_in_shared_data_mode)
    ready ← read (λ w. ok (check_fe_ready c namespace cluster_name w))
    require ready (sentinel err_fe_is_not_ready)

  sync_template : StarRocksWarehouse → WarehouseComponentSpec → M c.World (Unit {0})
  unfolding check_cluster sync_cn_spec new_from_warehouse to_cn_spec
  sync_template warehouse template =
      if warehouse.starrocks_cluster == ""
      then fail (sentinel err_spec_is_missing)
      else if warehouse.meta.name == warehouse.starrocks_cluster
      then fail (sentinel err_warehouse_name_is_not_allowed)
      else (check_cluster warehouse.meta.namespace warehouse.starrocks_cluster
          >> sync_cn_spec (new_from_warehouse warehouse) (to_cn_spec template) warehouse.status)

  -- SyncWarehouse
  unfoldable pub sync_warehouse : StarRocksWarehouse → M c.World (Unit {0})
  unfolding sync_template
  sync_warehouse warehouse = elim warehouse.template [
    | none ↦ fail (sentinel err_spec_is_missing)
    | some template ↦ sync_template warehouse template
  ]
