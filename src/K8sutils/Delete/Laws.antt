-- ===== src/K8sutils/Delete/Laws.antt =====
-- Deletions of objects that are gone: pkg/k8sutils/k8sutils.go.
use starrocks_kubernetes_ope.Base.{String, ok, err, Error, is_not_found, ◌≡◌, refl, true}
use starrocks_kubernetes_ope.Kube.Client.{Client}
use starrocks_kubernetes_ope.K8sutils.Delete.{delete_statefulset, delete_service}

-- A stateful set that is not found counts as deleted: nothing is written and no error returned.
pub delete_statefulset-absent :
    (c : Client) (namespace name : String) (w : c.World) (e : Error)
    → c.statefulsets.get (record { namespace = namespace; name = name }) w ≡ err e
    → is_not_found e ≡ true
    → delete_statefulset c namespace name w ≡ (ok tt, w)
unfolding delete_statefulset
delete_statefulset-absent c namespace name w e failed gone = rw (failed, gone) refl

-- The same holds of a service.
pub delete_service-absent :
    (c : Client) (namespace name : String) (w : c.World) (e : Error)
    → c.services.get (record { namespace = namespace; name = name }) w ≡ err e
    → is_not_found e ≡ true
    → delete_service c namespace name w ≡ (ok tt, w)
unfolding delete_service
delete_service-absent c namespace name w e failed gone = rw (failed, gone) refl
