-- ===== src/Subcontrollers/Clear/Laws.antt =====
-- Clearing a component twice: pkg/subcontrollers/be/be_controller.go.
use starrocks_kubernetes_ope.Base.{String, none, ok, err, is_not_found, ◌≡◌, refl, not_found}
use starrocks_kubernetes_ope.Kube.{Key}
use starrocks_kubernetes_ope.Kube.Client.{Client}
use starrocks_kubernetes_ope.K8sutils.Delete.Laws.{delete_statefulset-absent, delete_service-absent}
use starrocks_kubernetes_ope.Api.{be, StarRocksCluster}
use starrocks_kubernetes_ope.Templates.Names.{load_name, search_service_name, external_service_name}
use starrocks_kubernetes_ope.Subcontrollers.Clear.{be_clear_cluster, delete_objects}

-- Where none of the BE's objects is found, ClearCluster of a cluster without a BE writes nothing and
-- succeeds, so that every later reconcile may call it again.
pub be_clear_cluster-absent :
    (c : Client) (src : StarRocksCluster) (w : c.World) (text : String)
    → src.spec.be_spec ≡ none
    → ((key : Key) → c.statefulsets.get key w ≡ err (not_found text))
    → ((key : Key) → c.services.get key w ≡ err (not_found text))
    → be_clear_cluster c src w ≡ (ok tt, w)
unfolding be_clear_cluster delete_objects load_name search_service_name external_service_name
    is_not_found
be_clear_cluster-absent c src w text no_spec no_sets no_services =
    rw
      (
        no_spec,
        delete_statefulset-absent c src.meta.namespace (load_name src.meta.name be) w
            (not_found text) (no_sets _) refl,
        delete_service-absent c src.meta.namespace (search_service_name src.meta.name be) w
            (not_found text) (no_services _) refl,
        delete_service-absent c src.meta.namespace (external_service_name src.meta.name be) w
            (not_found text) (no_services _) refl,
      )
      refl
