-- ===== src/Tests/Sync.antt =====
-- SyncCluster, SyncWarehouse and the autoscaler at concrete inputs.
use starrocks_kubernetes_ope.Base.{
  pos, none, some, [], ◌∷◌, Result, ok, err, failure, ◌≡◌, ◌⊎◌, refl, sym, ap, is_not_found,
  not_found, Option, if◌then◌else◌, ◌&&◌, ◌∙◌, subst,
}
use starrocks_kubernetes_ope.Kube.{
  StatefulSet, hpa_v2, Key, key_of, HorizontalPodAutoscaler, annotate, annotation,
}
use starrocks_kubernetes_ope.Kube.Client.{Client}
use starrocks_kubernetes_ope.K8sutils.Delete.{unfilled_hpa, get_hpa_of}
use starrocks_kubernetes_ope.K8sutils.Objects.{create_client_object}
use starrocks_kubernetes_ope.K8sutils.Equality.{component_resource_hash}
use starrocks_kubernetes_ope.Api.{
  StarRocksBeSpec, StarRocksCnSpec, StarRocksWarehouse, AutoScalingPolicy, auto_scaler_v2,
  empty_hpa, validate_component,
}
use starrocks_kubernetes_ope.Templates.Names.{StarRocksObject, new_from_cluster}
use starrocks_kubernetes_ope.Controllers.Cluster.{Local, ClusterClient, run_all}
use starrocks_kubernetes_ope.Subcontrollers.Be.Laws as Be
use starrocks_kubernetes_ope.Subcontrollers.Be.Laws.{be_sync_cluster-Deploys}
use starrocks_kubernetes_ope.Subcontrollers.Fe.Config.{get_fe_config}
use starrocks_kubernetes_ope.Subcontrollers.Fe.Recovery.{should_enter_disaster_recovery_mode}
use starrocks_kubernetes_ope.Subcontrollers.Fe.Sync.{fe_sync_cluster, fe_set}
use starrocks_kubernetes_ope.Subcontrollers.Fe.Sync.Laws.{fe_sync_cluster_refuses_scale_to_1}
use starrocks_kubernetes_ope.Subcontrollers.Cn.ComputeNodes.{Sql, ComputeNode}
use starrocks_kubernetes_ope.Subcontrollers.Cn.AutoScaler.{
  deploy_auto_scaler, get_expected_hpa, expected_hpa,
}
use starrocks_kubernetes_ope.Subcontrollers.Cn.AutoScaler.Laws.{StoresHpa, deploy_auto_scaler-twice}
use starrocks_kubernetes_ope.Subcontrollers.Cn.Sync.{sync_warehouse, get_fe_config_of}
use starrocks_kubernetes_ope.Subcontrollers.Cn.Sync.Laws as Cn
use starrocks_kubernetes_ope.Subcontrollers.Cn.Sync.Deployable.{
  sync_warehouse-deploys, IsDeployable, HasFailed,
}
use starrocks_kubernetes_ope.Subcontrollers.PodTemplates.{Http}
use starrocks_kubernetes_ope.Subcontrollers.Instances.{
  Services, cluster_controllers, proxy_controller,
}
use starrocks_kubernetes_ope.Subcontrollers.Instances.Recovery.{run_all-recovering}
use text.Mathlib.Text.{◌==◌}
use text.Mathlib.TextPositions.{eq_refl}
use starrocks_kubernetes_ope.Tests.Fixtures.{
  client, settings, server, Server, set, cluster, fe_spec, warehouse,
}

abbrev pub clusters : ClusterClient Server
clusters = record {
  get_cluster = λ key w. ok cluster;
  update_status = λ src w. (ok tt, w);
  retry_on_conflict = λ m. m;
}

abbrev pub sql : Sql Server ComputeNode
sql = record {
  exec = λ dsn statement w. (ok tt, w);
  query = λ dsn statement w. ok [];
  scan_index = λ text. some (pos 0);
  sort_by_index = λ index nodes. nodes;
}

abbrev pub http : Http Server
http = record { get = λ url w. err (failure "refused"); feature_names = λ body. ok [] }

abbrev be_spec : StarRocksBeSpec
be_spec = record { component = fe_spec.component; be_env_vars = [] }

abbrev cn_spec : StarRocksCnSpec
cn_spec = record { component = fe_spec.component; cn_env_vars = []; auto_scaling_policy = none }

-- A cluster with a BE and a CN, whose FE has no endpoints.
abbrev waiting : Local Server
waiting = record {
  src = record cluster {
    spec = record (cluster.spec) { be_spec = some be_spec; cn_spec = some cn_spec };
  };
  world = server;
}

be-Deploys_example :
    Be.Deploys client settings waiting be_spec ⊎ Be.Stays client settings waiting be_spec
be-Deploys_example = be_sync_cluster-Deploys client settings waiting be_spec refl

-- The set on the server has three replicas, and the specification leaves their number out.
abbrev scaling : Local Server
scaling = record { src = cluster; world = record server { sts = some set } }

abbrev value_or : {A : Type 0} → A → Result A → A
value_or a (ok b) = b
value_or a r = a

expected_set : StatefulSet
unfolding fe_set
expected_set = value_or set (fe_set client settings cluster fe_spec [] scaling).0

refuses_example :
    fe_sync_cluster client settings scaling
    ≡ (err (failure "the replicas of statefulset sr-fe can not be scaled to 1"), scaling)
unfolding validate_component get_fe_config should_enter_disaster_recovery_mode fe_set expected_set
    is_not_found
refuses_example =
    fe_sync_cluster_refuses_scale_to_1 client settings scaling fe_spec [] expected_set set refl refl
      refl refl refl refl refl refl refl

-- A warehouse of a cluster that does not run in shared-data mode.
abbrev asked : StarRocksWarehouse
asked = record warehouse {
  template =
      some (record { component = fe_spec.component; env_vars = []; auto_scaling_policy = none });
}

sync_warehouse_example :
    IsDeployable client settings clusters sql http asked server
    ⊎ HasFailed client settings clusters sql http
        (sync_warehouse client settings clusters sql http asked server)
        server
sync_warehouse_example = sync_warehouse-deploys client settings clusters sql http asked server

abbrev services : Services client
services = record {
  clusters = clusters;
  sql = sql;
  http = http;
  selector_text = λ selector. ok "app=sr";
}

-- The autoscaler of a key, where the server has it.
abbrev scaler_at : Key → Option HorizontalPodAutoscaler → Result HorizontalPodAutoscaler
scaler_at key none = err (not_found "not found")
scaler_at key (some hpa) =
    if key.name == hpa.meta.name && key.namespace == hpa.meta.namespace
    then ok hpa
    else err (not_found "not found")

scaler_at_own :
    (key : Key) (hpa : HorizontalPodAutoscaler)
    → key_of hpa.meta ≡ key
    → scaler_at key (some hpa) ≡ ok hpa
scaler_at_own key hpa same =
    subst (λ k. scaler_at k (some hpa) ≡ ok hpa) same
      (rw (eq_refl hpa.meta.name, eq_refl hpa.meta.namespace) refl)

-- A server that stores an autoscaler.
abbrev scaler_client : Client
scaler_client = record client {
  get_hpa = λ version key w. scaler_at key w.hpa;
  update_hpa = λ hpa w. (ok tt, record w { hpa = some hpa });
}

abbrev policy : AutoScalingPolicy
policy = record {
  hpa_policy = none;
  version = auto_scaler_v2;
  min_replicas = some (pos 1);
  max_replicas = pos 5;
}

abbrev object : StarRocksObject
object = new_from_cluster cluster

stores : StoresHpa scaler_client settings object policy
unfolding get_expected_hpa empty_hpa get_hpa_of
stores = record {
  stored = λ hpa w w' same h. (
    hpa,
    ap (λ r. scaler_at (key_of (expected_hpa scaler_client settings object policy).meta) r.1.hpa)
          (sym h)
        ∙ scaler_at_own (key_of (expected_hpa scaler_client settings object policy).meta) hpa same,
    refl,
  );
}

-- The autoscaler on the server has another hash.
abbrev old_hpa : HorizontalPodAutoscaler
old_hpa = record (unfilled_hpa hpa_v2) {
  meta =
      annotate component_resource_hash "h0"
        (expected_hpa scaler_client settings object policy).meta;
}

abbrev outdated : Server
outdated = record server { hpa = some old_hpa }

updated : Server
unfolding deploy_auto_scaler
updated = (deploy_auto_scaler scaler_client settings object policy outdated).1

twice_example : deploy_auto_scaler scaler_client settings object policy updated ≡ (ok tt, updated)
unfolding deploy_auto_scaler updated get_expected_hpa annotate expected_hpa new_from_cluster
twice_example =
    deploy_auto_scaler-twice scaler_client settings object policy stores outdated updated old_hpa
      refl refl

-- A server whose FE is configured for shared data.
abbrev shared_client : Client
shared_client = record client {
  config_maps = record (client.config_maps) {
    get = λ key w.
        ok (record { meta = cluster.meta; contents = ("fe.conf", "run_mode = shared_data") ∷ [] });
  };
  read_properties = λ text. ok (("run_mode", "shared_data") ∷ []);
}

abbrev shared_services : Services shared_client
shared_services = record {
  clusters = clusters;
  sql = sql;
  http = http;
  selector_text = λ selector. ok "app=sr";
}

-- The cluster after SyncCluster of its FE has entered disaster recovery.
recovering : Local Server
unfolding fe_sync_cluster
recovering = (fe_sync_cluster shared_client settings waiting).1

entered : fe_sync_cluster shared_client settings waiting ≡ (ok tt, recovering)
unfolding fe_sync_cluster recovering is_not_found create_client_object annotation
entered = refl

recovering_example :
    run_all clusters
      (λ s. s.sync_cluster)
      (cluster_controllers shared_client settings shared_services)
      waiting
    ≡ run_all clusters
        (λ s. s.sync_cluster)
        (proxy_controller shared_client settings shared_services ∷ [])
        recovering
unfolding validate_component fe_sync_cluster recovering get_fe_config get_fe_config_of
    should_enter_disaster_recovery_mode is_not_found create_client_object
recovering_example =
    run_all-recovering shared_client settings shared_services waiting recovering be_spec cn_spec
      refl refl refl entered (("run_mode", "shared_data") ∷ [], refl, refl)
      (("run_mode", "shared_data") ∷ [], refl, refl)
