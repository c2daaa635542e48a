-- ===== src/Subcontrollers/Instances.antt =====
-- The sub-controllers as the reconcilers see them: the lists that pkg/controllers/controllers.go
-- makes, and UpdateWarehouseStatus of pkg/subcontrollers/cn/cn_controller.go.
pub mod Laws
pub mod Recovery
use starrocks_kubernetes_ope.Base.{
  String, Option, none, some, List, [], ◌∷◌, Dict, Result, ok, err, panic,
}
use starrocks_kubernetes_ope.Base.Results.Stateful.{M}
use starrocks_kubernetes_ope.Kube.{Key}
use starrocks_kubernetes_ope.Kube.Client.{Client, Settings}
use starrocks_kubernetes_ope.Api.{
  fe, be, cn, fe_proxy, StarRocksCluster, StarRocksCnStatus, StarRocksWarehouse,
  WarehouseComponentSpec, component_reconciling, to_cn_spec,
}
use starrocks_kubernetes_ope.Templates.Names.{new_from_warehouse}
use starrocks_kubernetes_ope.Controllers.Cluster.{
  Local, ClusterSubController, ClusterClient, reconcile,
}
use starrocks_kubernetes_ope.Controllers.Warehouse as Warehouse
use starrocks_kubernetes_ope.Controllers.Warehouse.{WarehouseSubController}
use starrocks_kubernetes_ope.Subcontrollers.Progress.{
  fe_update_cluster_status, be_update_cluster_status, cn_update_cluster_status, cn_update_status,
}
use starrocks_kubernetes_ope.Subcontrollers.PodTemplates.{Http}
use starrocks_kubernetes_ope.Subcontrollers.Fe.Sync.{fe_sync_cluster}
use starrocks_kubernetes_ope.Subcontrollers.Be.{be_sync_cluster}
use starrocks_kubernetes_ope.Subcontrollers.Cn.ComputeNodes.{Sql, ComputeNode}
use starrocks_kubernetes_ope.Subcontrollers.Cn.Sync.{cn_sync_cluster, sync_warehouse}
use starrocks_kubernetes_ope.Subcontrollers.Cn.Warehouses.{clear_warehouse}
use starrocks_kubernetes_ope.Subcontrollers.FeProxy.{proxy_sync_cluster}
use starrocks_kubernetes_ope.Subcontrollers.FeProxy.Status.{proxy_update_cluster_status}

-- What the sub-controllers call besides the API server's objects.
pub record Services (c : Client) : Type 1 where
  pub clusters : ClusterClient c.World
  pub sql : Sql c.World ComputeNode
  pub http : Http c.World
  -- LabelSelectorAsSelector and String
  pub selector_text : Option (Dict String) → Result String

-- An operation that only reads the world, and writes to the cluster.
abbrev pub reading :
    {W : Type 0}
    → (W → StarRocksCluster → Result (Unit {0}) × StarRocksCluster)
    → M (Local W) (Unit {0})
reading f l = let (r, src) = f l.world l.src in (r, record l { src = src })

with_status :
    StarRocksWarehouse
    → Result (Unit {0}) × StarRocksCnStatus
    → Result (Unit {0}) × StarRocksWarehouse
with_status warehouse (r, status) = (r, record warehouse { status = some status })

module _ (c : Client) (settings : Settings) (services : Services c) where
  template_status :
      StarRocksWarehouse
      → WarehouseComponentSpec
      → Option StarRocksCnStatus
      → c.World
      → Result (Unit {0}) × StarRocksWarehouse
  unfolding cn_update_status new_from_warehouse to_cn_spec with_status
  template_status warehouse template none w = (panic "nil pointer", warehouse)
  template_status warehouse template (some status) w = with_status warehouse (
      cn_update_status c settings services.selector_text w (new_from_warehouse warehouse)
        (to_cn_spec template)
        (record status { component = record (status.component) { phase = component_reconciling } }))

  -- UpdateWarehouseStatus
  unfoldable pub cn_update_warehouse_status :
      StarRocksWarehouse → c.World → Result (Unit {0}) × StarRocksWarehouse
  unfolding template_status
  cn_update_warehouse_status warehouse w = elim warehouse.template [
    | none ↦ (ok tt, record warehouse { status = none })
    | some template ↦ template_status warehouse template warehouse.status w
  ]

  unfoldable pub fe_controller : ClusterSubController c.World
  unfolding fe_sync_cluster fe_update_cluster_status
  fe_controller = record {
    kind = fe;
    sync_cluster = fe_sync_cluster c settings;
    update_cluster_status = reading (fe_update_cluster_status c);
  }

  unfoldable pub be_controller : ClusterSubController c.World
  unfolding be_sync_cluster be_update_cluster_status
  be_controller = record {
    kind = be;
    sync_cluster = be_sync_cluster c settings;
    update_cluster_status = reading (be_update_cluster_status c);
  }

  unfoldable pub cn_controller : ClusterSubController c.World
  unfolding cn_sync_cluster cn_update_cluster_status
  cn_controller = record {
    kind = cn;
    sync_cluster = cn_sync_cluster c settings services.clusters services.sql services.http;
    update_cluster_status = reading (cn_update_cluster_status c settings services.selector_text);
  }

  unfoldable pub proxy_controller : ClusterSubController c.World
  unfolding proxy_sync_cluster proxy_update_cluster_status
  proxy_controller = record {
    kind = fe_proxy;
    sync_cluster = proxy_sync_cluster c settings;
    update_cluster_status = reading (proxy_update_cluster_status c);
  }

  -- The sub-controllers of SetupClusterReconciler, in their order.
  unfoldable pub cluster_controllers : List (ClusterSubController c.World)
  unfolding fe_controller be_controller cn_controller proxy_controller
  cluster_controllers = fe_controller ∷ be_controller ∷ cn_controller ∷ proxy_controller ∷ []

  -- The sub-controller of SetupWarehouseReconciler.
  unfoldable pub warehouse_controller : WarehouseSubController c.World
  unfolding sync_warehouse cn_update_warehouse_status clear_warehouse
  warehouse_controller = record {
    clear_warehouse = clear_warehouse c settings services.sql;
    sync_warehouse = λ l.
        Warehouse.on_world
          (sync_warehouse c settings services.clusters services.sql services.http l.warehouse) l;
    update_warehouse_status = λ l.
        let (r, warehouse) = cn_update_warehouse_status l.warehouse l.world in
        (r, record l { warehouse = warehouse });
  }

  -- Reconcile of a cluster with these sub-controllers.
  unfoldable pub reconcile_cluster : Key → M c.World (Unit {0})
  unfolding reconcile cluster_controllers
  reconcile_cluster = reconcile services.clusters cluster_controllers
