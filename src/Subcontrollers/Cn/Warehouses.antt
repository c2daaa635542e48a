-- ===== src/Subcontrollers/Cn/Warehouses.antt =====
-- The end of a warehouse: ClearWarehouse of pkg/subcontrollers/cn/cn_controller.go.
pub mod Laws
use starrocks_kubernetes_ope.Base.{String, none, Result}
use starrocks_kubernetes_ope.Base.Results.Stateful.{M, ◌>>=◌, ◌>>◌, read, try}
use starrocks_kubernetes_ope.Kube.{Key, StatefulSet}
use starrocks_kubernetes_ope.Kube.Client.{Client, Settings}
use starrocks_kubernetes_ope.Api.{cn}
use starrocks_kubernetes_ope.Templates.Names.{load_name, prefix_name_for_warehouse}
use starrocks_kubernetes_ope.Subcontrollers.Cn.ComputeNodes.{
  Sql, ComputeNode, execute_drop_warehouse, new_sql_executor,
}

-- The name of the warehouse's stateful set.
abbrev pub warehouse_set_name : (warehouse_name : String) → String
warehouse_set_name warehouse_name = load_name (prefix_name_for_warehouse warehouse_name) cn

abbrev pub warehouse_set_key : (namespace warehouse_name : String) → Key
warehouse_set_key namespace warehouse_name = record {
  namespace = namespace;
  name = warehouse_set_name warehouse_name;
}

module _ (c : Client) (settings : Settings) (sql : Sql c.World ComputeNode) where
  -- The last part: the finalizers of the stateful set are removed.
  remove_finalizers : Key → M c.World (Unit {0})
  remove_finalizers key = read (c.statefulsets.get key) >>= λ sts.
      c.statefulsets.update (record sts { meta = record (sts.meta) { finalizers = none } })

  -- ClearWarehouse
  unfoldable pub clear_warehouse : (namespace warehouse_name : String) → M c.World (Unit {0})
  unfolding new_sql_executor execute_drop_warehouse remove_finalizers
  clear_warehouse namespace warehouse_name =
      read (λ w. new_sql_executor c settings w namespace (warehouse_set_name warehouse_name))
      >>= λ executor. try (execute_drop_warehouse sql executor warehouse_name) >>= λ _.
          remove_finalizers (warehouse_set_key namespace warehouse_name)
