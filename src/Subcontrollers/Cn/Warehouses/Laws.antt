-- ===== src/Subcontrollers/Cn/Warehouses/Laws.antt =====
-- What ClearWarehouse does about an error of the FE: pkg/subcontrollers/cn/cn_controller.go.
use starrocks_kubernetes_ope.Base.{String, none, Result, ok, ◌≡◌, refl}
use starrocks_kubernetes_ope.Base.Results.Stateful.{try}
use starrocks_kubernetes_ope.Kube.{StatefulSet}
use starrocks_kubernetes_ope.Kube.Client.{Client, Settings}
use starrocks_kubernetes_ope.Subcontrollers.Cn.ComputeNodes.{
  Sql, SqlExecutor, ComputeNode, execute_drop_warehouse, new_sql_executor,
}
use starrocks_kubernetes_ope.Subcontrollers.Cn.Warehouses.{
  clear_warehouse, remove_finalizers, warehouse_set_key, warehouse_set_name,
}

-- Where the executor can be made and the warehouse's stateful set is found after DROP WAREHOUSE,
-- ClearWarehouse removes the finalizers of this set and answers what that update answers, whatever
-- the FE has answered to DROP WAREHOUSE, an error included.
pub clear_warehouse-any_answer :
    (c : Client) (settings : Settings) (sql : Sql c.World ComputeNode)
    (namespace warehouse_name : String) (w w' : c.World) (executor : SqlExecutor)
    (answer : Result (Unit {0})) (sts : StatefulSet)
    → new_sql_executor c settings w namespace (warehouse_set_name warehouse_name) ≡ ok executor
    → try (execute_drop_warehouse sql executor warehouse_name) w ≡ (ok answer, w')
    → c.statefulsets.get (warehouse_set_key namespace warehouse_name) w' ≡ ok sts
    → clear_warehouse c settings sql namespace warehouse_name w
      ≡ c.statefulsets.update (record sts { meta = record (sts.meta) { finalizers = none } }) w'
unfolding clear_warehouse remove_finalizers
clear_warehouse-any_answer c settings sql namespace warehouse_name w w' executor answer sts made
      said found =
    rw (made, said, found) refl
