-- ===== src/Subcontrollers/Instances/Recovery.antt =====
-- The sub-controllers of one reconcile during disaster recovery: pkg/subcontrollers.
use starrocks_kubernetes_ope.Base.{some, [], ◌∷◌, ok, ◌≡◌, sym, ap, ◌∙◌, inr}
use starrocks_kubernetes_ope.Kube.Client.{Client, Settings}
use starrocks_kubernetes_ope.Api.{StarRocksBeSpec, StarRocksCnSpec, validate_component}
use starrocks_kubernetes_ope.Controllers.Cluster.{Local, run_all}
use starrocks_kubernetes_ope.Controllers.Cluster.Laws.{run_all-step}
use starrocks_kubernetes_ope.Subcontrollers.Fe.Sync.{fe_sync_cluster}
use starrocks_kubernetes_ope.Subcontrollers.Be.Laws as Be
use starrocks_kubernetes_ope.Subcontrollers.Be.Laws.{be_sync_cluster-held}
use starrocks_kubernetes_ope.Subcontrollers.Cn.Sync.Laws as Cn
use starrocks_kubernetes_ope.Subcontrollers.Cn.Sync.Laws.{cn_sync_cluster-held}
use starrocks_kubernetes_ope.Subcontrollers.Instances.{
  Services, cluster_controllers, fe_controller, be_controller, cn_controller, proxy_controller,
}
use starrocks_kubernetes_ope.Subcontrollers.Instances.Laws.{fe_sync_cluster-Keeps}

module _ (c : Client) (settings : Settings) (services : Services c) where
  -- Where SyncCluster of the FE succeeds, and disaster recovery is due by the status and the
  -- configuration after it, SyncCluster of a valid BE and of a CN change nothing in the same
  -- reconcile: its loop over SyncCluster goes on with the FE proxy from what the FE has left.
  pub run_all-recovering :
      (l l1 : Local c.World) (be : StarRocksBeSpec) (cn : StarRocksCnSpec)
      → l.src.spec.be_spec ≡ some be
      → validate_component be.component ≡ ok tt
      → l.src.spec.cn_spec ≡ some cn
      → fe_sync_cluster c settings l ≡ (ok tt, l1)
      → Be.IsRecovering c settings l1.src l1.world
      → Cn.IsRecovering c settings services.clusters services.sql services.http l1.src l1.world
      → run_all services.clusters (λ s. s.sync_cluster) (cluster_controllers c settings services) l
        ≡ run_all services.clusters
            (λ s. s.sync_cluster)
            (proxy_controller c settings services ∷ [])
            l1
  unfolding cluster_controllers fe_controller be_controller cn_controller proxy_controller
  run_all-recovering l l1 be cn has_be valid has_cn synced be_due cn_due =
      let kept = sym (ap (λ r. r.1.src.spec) synced) ∙ (fe_sync_cluster-Keeps c settings l).1 in
      run_all-step services.clusters (λ s. s.sync_cluster) (fe_controller c settings services) _ l
        l1 synced
      ∙ run_all-step services.clusters (λ s. s.sync_cluster) (be_controller c settings services) _
          l1 l1
          (be_sync_cluster-held c settings l1 be (ap (λ s. s.be_spec) kept ∙ has_be) valid
            (inr be_due))
      ∙ run_all-step services.clusters (λ s. s.sync_cluster) (cn_controller c settings services) _
          l1 l1
          (cn_sync_cluster-held c settings services.clusters services.sql services.http l1 cn
            (ap (λ s. s.cn_spec) kept ∙ has_cn) (inr cn_due))
