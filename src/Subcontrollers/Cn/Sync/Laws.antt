-- ===== src/Subcontrollers/Cn/Sync/Laws.antt =====
-- When SyncCluster of the CN deploys, and when it writes nothing: pkg/subcontrollers/cn/cn_controller.go.
use starrocks_kubernetes_ope.Base.{
  String, some, is_some, Dict, true, false, Result, ok, ◌≡◌, ◌⊎◌, inl, inr, refl, Bool-cases,
}
use starrocks_kubernetes_ope.Kube.Client.{Client, Settings}
use starrocks_kubernetes_ope.Api.{StarRocksCnSpec, StarRocksCluster}
use starrocks_kubernetes_ope.Templates.Names.{new_from_cluster}
use starrocks_kubernetes_ope.Controllers.Cluster.{Local, ClusterClient, on_world}
use starrocks_kubernetes_ope.Subcontrollers.PodTemplates.{Http}
use starrocks_kubernetes_ope.Subcontrollers.Fe.Config.{may_go_on}
use starrocks_kubernetes_ope.Subcontrollers.Fe.Config.Laws.{IsUp}
use starrocks_kubernetes_ope.Subcontrollers.Fe.Recovery.{should_enter_disaster_recovery_mode}
use starrocks_kubernetes_ope.Subcontrollers.Cn.ComputeNodes.{Sql, ComputeNode}
use starrocks_kubernetes_ope.Subcontrollers.Cn.Sync.{
  cn_sync_cluster, cn_sync_spec, cn_sync_ready, sync_cn_spec, get_fe_config_of,
}

module _ (c : Client) (settings : Settings) (cluster_client : ClusterClient c.World)
    (sql : Sql c.World ComputeNode) (http : Http c.World) where
  -- Disaster recovery is due for the configuration of the FE of the cluster that the server holds.
  abbrev pub IsRecovering : StarRocksCluster → c.World → Type 0
  IsRecovering src w =
      (config : Dict String) × (get_fe_config_of c cluster_client src.meta.namespace src.meta.name w
        ≡ (ok config, w))
      × (is_some (
            should_enter_disaster_recovery_mode src.spec.disaster_recovery
              src.status.disaster_recovery_status config)
          ≡ true)

  cn_sync_ready-recovering :
      (src : StarRocksCluster) (spec : StarRocksCnSpec) (w : c.World)
      → IsRecovering src w
      → cn_sync_ready c settings cluster_client sql http src spec w ≡ (ok tt, w)
  unfolding cn_sync_ready
  cn_sync_ready-recovering src spec w (config, read, due) = rw (read, due) refl

  -- While the FE is not ready, or not fully rolled out where the cluster asks to wait for that, and
  -- while disaster recovery is due, SyncCluster of a CN succeeds, and changes neither the world nor
  -- the cluster.
  pub cn_sync_cluster-held :
      (l : Local c.World) (spec : StarRocksCnSpec)
      → l.src.spec.cn_spec ≡ some spec
      → (may_go_on c l.src l.world ≡ false) ⊎ IsRecovering l.src l.world
      → cn_sync_cluster c settings cluster_client sql http l ≡ (ok tt, l)
  unfolding cn_sync_cluster cn_sync_spec
  cn_sync_cluster-held l spec given (inl waiting) = rw (given, waiting) refl
  cn_sync_cluster-held l spec given (inr recovering) =
      elim (Bool-cases (may_go_on c l.src l.world)) [
        | inl ready ↦ rw (given, ready, cn_sync_ready-recovering l.src spec l.world recovering) refl
        | inr waiting ↦ rw (given, waiting) refl
      ]

  -- What SyncCluster of a CN asks for before it deploys: the FE is up, its configuration can be read,
  -- and disaster recovery is not due for it.
  pub record IsDeployable (src : StarRocksCluster) (w : c.World) : Type 0 where
    pub up : IsUp c src w
    pub config : Dict String
    pub configured :
        get_fe_config_of c cluster_client src.meta.namespace src.meta.name w ≡ (ok config, w)
    pub calm :
        is_some (
          should_enter_disaster_recovery_mode src.spec.disaster_recovery
            src.status.disaster_recovery_status config)
        ≡ false

  -- The call goes on to the objects of the CN.
  abbrev pub Deploys : Local c.World → StarRocksCnSpec → Type 0
  Deploys l spec =
      IsDeployable l.src l.world
      × (cn_sync_cluster c settings cluster_client sql http l
          ≡ on_world
              (sync_cn_spec c settings cluster_client sql http (new_from_cluster l.src) spec
                l.src.status.cn_status)
              l)

  -- The call may not deploy: it writes nothing and leaves the cluster as it is.
  abbrev pub Stays : Local c.World → Type 0
  Stays l =
      (¬ IsDeployable l.src l.world)
      × (r : Result (Unit {0})) × (cn_sync_cluster c settings cluster_client sql http l ≡ (r, l))
