-- ===== src/Subcontrollers/Fe/Sync.antt =====
-- SyncCluster of the FE: pkg/subcontrollers/fe/fe_controller.go.
pub mod Laws
use starrocks_kubernetes_ope.Base.{
  String, ℤ, pos, Option, none, some, [], ◌∷◌, Dict, Bool, true, false, Result, ok, err, panic,
}
use starrocks_kubernetes_ope.Base.Results.Stateful.{M, ◌>>=◌, ◌>>◌, pure, read}
use starrocks_kubernetes_ope.Kube.{StatefulSet, Service, ServicePort}
use starrocks_kubernetes_ope.Kube.Client.{Client, Settings}
use starrocks_kubernetes_ope.Api.{
  fe, fe_spec, StarRocksFeSpec, StarRocksCluster, DisasterRecovery, DisasterRecoveryStatus,
  validate_component,
}
use starrocks_kubernetes_ope.K8sutils.Config.Ports.{get_port, query_port}
use starrocks_kubernetes_ope.K8sutils.Equality.{statefulset_deep_equal, service_deep_equal}
use starrocks_kubernetes_ope.K8sutils.Apply.{apply_statefulset, apply_service}
use starrocks_kubernetes_ope.K8sutils.Services.{build_external_service, make_search_service}
use starrocks_kubernetes_ope.Templates.Names.{
  new_from_cluster, load_labels, load_selector, search_service_name,
}
use starrocks_kubernetes_ope.Templates.Workloads.{make_statefulset}
use starrocks_kubernetes_ope.Controllers.Cluster.{Local, on_world}
use starrocks_kubernetes_ope.Subcontrollers.PodTemplates.{fe_pod_template}
use starrocks_kubernetes_ope.Subcontrollers.Fe.Config.{get_fe_config}
use starrocks_kubernetes_ope.Subcontrollers.Fe.Recovery.{
  Recovering, should_enter_disaster_recovery_mode, enter_disaster_recovery_mode,
}

abbrev pub with_recovery : DisasterRecoveryStatus → StarRocksCluster → StarRocksCluster
with_recovery status src = record src {
  status = record (src.status) { disaster_recovery_status = some status };
}

-- The port of the FE's search service.
abbrev query_service_port : ℤ → ServicePort
query_service_port port = record {
  name = "query-port";
  port = port;
  target_port = port;
  node_port = pos 0;
  protocol = "";
  app_protocol = some "mysql";
}

-- The stateful set to deploy, and whether the cluster is in disaster recovery mode.
abbrev pub recovered_set :
    {W : Type 0} → Local W → Result (Unit {0}) × Recovering → Result (StatefulSet × Bool) × Local W
recovered_set l (ok done, r) = (ok (r.sts, true), record l { src = with_recovery r.status l.src })
recovered_set l (err e, r) = (err e, record l { src = with_recovery r.status l.src })
recovered_set l (panic p, r) = (panic p, record l { src = with_recovery r.status l.src })

module _ (c : Client) (settings : Settings) where
  unfoldable pub enter_if_due :
      StarRocksCluster
      → DisasterRecovery
      → StatefulSet
      → (port : Option ℤ) → M (Local c.World) (StatefulSet × Bool)
  unfolding enter_disaster_recovery_mode
  enter_if_due src spec sts none l = (ok (sts, false), l)
  enter_if_due src spec sts (some port) l =
      recovered_set l (enter_disaster_recovery_mode c src spec sts port l.world)

  unfoldable pub prepare_given :
      Option DisasterRecovery
      → StarRocksCluster
      → (config : Dict String) → StatefulSet
      → M (Local c.World) (StatefulSet × Bool)
  unfolding should_enter_disaster_recovery_mode enter_if_due
  prepare_given none src config sts = pure (sts, false)
  prepare_given (some spec) src config sts =
      enter_if_due src spec sts
        (should_enter_disaster_recovery_mode (some spec) src.status.disaster_recovery_status config)

  -- The part on disaster recovery.
  unfoldable pub prepare_set :
      StarRocksCluster
      → (config : Dict String) → StatefulSet
      → M (Local c.World) (StatefulSet × Bool)
  unfolding prepare_given
  prepare_set src config sts = prepare_given src.spec.disaster_recovery src config sts

  -- The set of an FE outside of disaster recovery.
  unfoldable pub fe_set :
      StarRocksCluster → StarRocksFeSpec → (config : Dict String) → M (Local c.World) StatefulSet
  unfolding fe_pod_template make_statefulset new_from_cluster
  fe_set src spec config = do
    template ← read (λ _. fe_pod_template c settings src.meta.namespace src.meta.name spec config)
    read (λ _. make_statefulset c (new_from_cluster src) (fe_spec spec) template)

  unfoldable pub fe_service : StarRocksCluster → StarRocksFeSpec → (config : Dict String) → Service
  unfolding build_external_service new_from_cluster load_selector load_labels
  fe_service src spec config =
      build_external_service c (new_from_cluster src) fe spec.service config
        (load_selector src.meta.name fe) (load_labels src.meta.name fe)

  unfoldable pub fe_search_service :
      StarRocksCluster → StarRocksFeSpec → (config : Dict String) → Service
  unfolding make_search_service fe_service search_service_name get_port load_labels
  fe_search_service src spec config =
      make_search_service (search_service_name src.meta.name fe) (fe_service src spec config)
        (query_service_port (get_port config query_port) ∷ []) (load_labels src.meta.name fe)

  -- SyncCluster of a cluster with this FE
  unfoldable pub fe_sync_spec : StarRocksCluster → StarRocksFeSpec → M (Local c.World) (Unit {0})
  unfolding validate_component get_fe_config fe_set prepare_set apply_statefulset apply_service
      statefulset_deep_equal service_deep_equal fe_search_service fe_service
  fe_sync_spec src spec = do
    read (λ _. validate_component spec.component)
    config ← read (λ l. get_fe_config c src.meta.namespace (some spec) l.world)
    sts ← fe_set src spec config
    target ← prepare_set src config sts
    deployed ← on_world (apply_statefulset c target.0 target.1 (statefulset_deep_equal c))
    on_world (apply_service c (fe_search_service src spec config) (service_deep_equal c))
    on_world (apply_service c (fe_service src spec config) (service_deep_equal c))

  unfoldable pub fe_sync_given :
      Option StarRocksFeSpec → StarRocksCluster → M (Local c.World) (Unit {0})
  unfolding fe_sync_spec
  fe_sync_given none src = pure tt
  fe_sync_given (some spec) src = fe_sync_spec src spec

  -- SyncCluster
  unfoldable pub fe_sync_cluster : M (Local c.World) (Unit {0})
  unfolding fe_sync_given
  fe_sync_cluster l = fe_sync_given l.src.spec.fe_spec l.src l
