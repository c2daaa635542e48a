-- ===== src/Templates/Names/Laws.antt =====
-- The names of a warehouse's objects are not those of a cluster of the same name:
-- pkg/k8sutils/templates/object/meta.go.
use starrocks_kubernetes_ope.Base.{◌≡◌, ◌≢◌, arith, ap, ◌<>◌}
use starrocks_kubernetes_ope.Api.{StarRocksCluster, StarRocksWarehouse}
use Prim.Native.String.{count}
use text.Mathlib.TextLemmas.{append_cancel_right, length-append}
use starrocks_kubernetes_ope.Templates.Names.{
  cn_statefulset_name, new_from_cluster, new_from_warehouse, load_name, default_name,
  prefix_name_for_warehouse,
}

-- The stateful set of a warehouse never has the name of that of a cluster with the warehouse's name.
pub cn_statefulset_name-warehouse :
    (cluster : StarRocksCluster) (warehouse : StarRocksWarehouse)
    → warehouse.meta.name ≡ cluster.meta.name
    → cn_statefulset_name (new_from_warehouse warehouse)
      ≢ cn_statefulset_name (new_from_cluster cluster)
unfolding cn_statefulset_name new_from_cluster new_from_warehouse load_name default_name
    prefix_name_for_warehouse
cn_statefulset_name-warehouse cluster warehouse same clash =
    let longer =
      append_cancel_right (warehouse.meta.name <> "-warehouse") cluster.meta.name "-cn" clash in
    omega (arith, length-append warehouse.meta.name "-warehouse", ap count longer, ap count same)
