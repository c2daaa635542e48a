-- ===== src/Subcontrollers/FeProxy/Status.antt =====
-- The status of the FE proxy: UpdateClusterStatus of
-- pkg/subcontrollers/feproxy/feproxy_controller.go. It only reads the world; its errors keep what it
-- has written to the cluster.
use starrocks_kubernetes_ope.Base.{
  Option, none, some, Result, ok, err, panic, or_else, is_not_found, if◌then◌else◌,
}
use starrocks_kubernetes_ope.Kube.{Deployment}
use starrocks_kubernetes_ope.Kube.Client.{Client}
use starrocks_kubernetes_ope.Api.{
  fe_proxy, StarRocksFeProxySpec, StarRocksComponentStatus, StarRocksCluster,
}
use starrocks_kubernetes_ope.Templates.Names.{load_name, external_service_name}
use starrocks_kubernetes_ope.Templates.Pods.{labels_of_pods}
use starrocks_kubernetes_ope.Subcontrollers.Progress.{new_component_status}
use starrocks_kubernetes_ope.Subcontrollers.Status.{update_status, deployment_load_type}

abbrev with_proxy : StarRocksCluster → Option StarRocksComponentStatus → StarRocksCluster
with_proxy src status = record src { status = record (src.status) { fe_proxy_status = status } }

module _ (c : Client) (w : c.World) where
  unfoldable pub proxy_status_of :
      StarRocksCluster
      → StarRocksFeProxySpec
      → StarRocksComponentStatus
      → Result Deployment
      → Result (Unit {0}) × StarRocksCluster
  unfolding update_status load_name labels_of_pods external_service_name
  proxy_status_of src spec status (ok actual) =
      let (r, judged) =
        update_status c src.meta.namespace (load_name src.meta.name fe_proxy)
          (labels_of_pods src.meta.name fe_proxy spec.pod_labels) deployment_load_type w
          (record status { service_name = external_service_name src.meta.name fe_proxy }) in
      (r, with_proxy src (some judged))
  proxy_status_of src spec status (err e) =
      (if is_not_found e then ok tt else err e, with_proxy src (some status))
  proxy_status_of src spec status (panic p) = (panic p, with_proxy src (some status))

  unfoldable pub proxy_status_given :
      Option StarRocksFeProxySpec → StarRocksCluster → Result (Unit {0}) × StarRocksCluster
  unfolding proxy_status_of load_name
  proxy_status_given none src = (ok tt, with_proxy src none)
  proxy_status_given (some spec) src =
      proxy_status_of src spec (or_else src.status.fe_proxy_status new_component_status) (
        c.deployments.get
          (record { namespace = src.meta.namespace; name = load_name src.meta.name fe_proxy }) w)

  -- UpdateClusterStatus
  unfoldable pub proxy_update_cluster_status :
      StarRocksCluster → Result (Unit {0}) × StarRocksCluster
  unfolding proxy_status_given
  proxy_update_cluster_status src = proxy_status_given src.spec.fe_proxy_spec src
