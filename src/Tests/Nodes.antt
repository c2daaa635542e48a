-- ===== src/Tests/Nodes.antt =====
-- The compute nodes of the FE at concrete inputs.
use starrocks_kubernetes_ope.Base.{
  String, ℕ, Result, ◌⊎◌, ◌≢◌, ℤ, pos, Option, none, some, List, [], ◌∷◌, ◌++◌, Dict, drop, length,
  All, ok, err, failure, if◌then◌else◌, ◌≡◌, ◌↔◌, refl, sym, ap, true, false,
}
use starrocks_kubernetes_ope.Kube.{annotation, StatefulSet}
use starrocks_kubernetes_ope.K8sutils.Equality.{statefulset_deep_equal}
use starrocks_kubernetes_ope.Templates.Names.{StarRocksObject, new_from_cluster}
use starrocks_kubernetes_ope.Subcontrollers.Cn.ComputeNodes.{
  Sql, SqlExecutor, ComputeNode, check_settled, drop_surplus, sync_compute_nodes_in_fe, is_old,
  fe_warehouse, drop_nodes, new_sql_executor, query_show_compute_nodes, execute_drop_warehouse,
}
use starrocks_kubernetes_ope.Subcontrollers.Cn.ComputeNodes.Laws.{
  Ledger, drop_statements, IsSettled, sync_compute_nodes_in_fe-statements,
  sync_compute_nodes_in_fe-IsSettled, check_settled_iff,
}
use starrocks_kubernetes_ope.Subcontrollers.Cn.ComputeNodes.Order.{Sorts, AreNodesOf}
use starrocks_kubernetes_ope.Tests.Sorting.{sort_nodes, sort_nodes-IsSortedBy, sort_nodes-perm}
use starrocks_kubernetes_ope.Subcontrollers.Cn.Warehouses.{clear_warehouse}
use starrocks_kubernetes_ope.Subcontrollers.Cn.Warehouses.Laws.{clear_warehouse-any_answer}
use text.Mathlib.Text.{◌==◌}
use starrocks_kubernetes_ope.Tests.Fixtures.{
  client, settings, server, Server, set, with_replicas, pod, cluster,
}

abbrev row : (fqdn : String) → Dict (Option String)
row fqdn =
    ("IP", some fqdn)
    ∷ ("HeartbeatPort", some "9050")
    ∷ ("WarehouseName", some "default_warehouse")
    ∷ ("Tablets", none)
    ∷ []

abbrev index : String → Option ℤ
index text = if text == "0" then some (pos 0) else if text == "1" then some (pos 1) else none

-- The FE lists the second node first.
abbrev sql : Sql Server ComputeNode
sql = record {
  exec = λ dsn statement w. (ok tt, record w { statements = w.statements ++ statement ∷ [] });
  query = λ dsn statement w. ok (row "sr-cn-1.x" ∷ row "sr-cn-0.x" ∷ []);
  scan_index = index;
  sort_by_index = sort_nodes;
}

sorts : Sorts sql
sorts = record { sorted = sort_nodes-IsSortedBy; permuted = sort_nodes-perm }

abbrev node : String → ℤ → ComputeNode
node fqdn index = record {
  compute_node_id = "";
  fqdn = fqdn;
  heartbeat_port = "9050";
  warehouse_name = "default_warehouse";
  index = index;
}

ledger : Ledger sql
ledger = record {
  statements = λ w. w.statements;
  exec-statements = λ dsn statement w w' e. sym (ap (λ r. r.1.statements) e);
}

abbrev nodes_by_warehouse : String → List ComputeNode
nodes_by_warehouse warehouse =
    let rest = if "default_warehouse" == warehouse then node "sr-cn-0.x" (pos 0) ∷ [] else [] in
    sort_nodes (λ n. n.index)
      (if "default_warehouse" == warehouse then node "sr-cn-1.x" (pos 1) ∷ rest else rest)

abbrev executor : SqlExecutor
executor = record {
  root_password = "";
  fe_service_name = "fe-service";
  fe_service_namespace = "db";
  fe_service_port = "";
  ssl_mode = "DISABLED";
}

abbrev one : StarRocksObject
one = new_from_cluster cluster

settles_example :
    let actual = set in
    let expect = with_replicas (some (pos 2)) set in
    let call = sync_compute_nodes_in_fe client settings sql one expect actual [] server in
    ((replicas : ℕ) × IsSettled client expect actual [] replicas
      × (call ≡ drop_surplus client settings sql one replicas server))
    ⊎ ((¬ ((replicas : ℕ) × IsSettled client expect actual [] replicas))
        × (r : Result (Unit {0})) × (call ≡ (r, server))
        × (r ≢ ok tt))
settles_example =
    sync_compute_nodes_in_fe-IsSettled client settings sql one (with_replicas (some (pos 2)) set)
      set [] server

abbrev single : Server
single = record server { sts = some (with_replicas none set) }

abbrev shrunk : Server
shrunk = record single {
  statements =
      "ALTER SYSTEM DROP COMPUTE NODE \"sr-cn-1.x:9050\" FROM WAREHOUSE default_warehouse" ∷ [];
}

settled_check_example :
    (check_settled client settings sql
        (with_replicas none set)
        (with_replicas none set)
        (pod "sr-cn-0" true ∷ [])
      ≡ ok 1)
    ↔ ((pos 1 ≡ pos 1)
        × (pos 1 ≡ pos 1)
        × ((statefulset_deep_equal client (with_replicas none set) (with_replicas none set)).1
            ≡ true)
        × (length (pod "sr-cn-0" true ∷ []) ≡ 1)
        × All (λ pod. is_old "r2" pod ≡ false) (pod "sr-cn-0" true ∷ []))
settled_check_example =
    check_settled_iff client settings sql (with_replicas none set) (with_replicas none set)
      (pod "sr-cn-0" true ∷ []) 1

dropped_example :
    AreNodesOf sql "default_warehouse" (nodes_by_warehouse "default_warehouse")
    × (shrunk.statements
        ≡ single.statements
          ++ drop_statements sql (drop 1 (nodes_by_warehouse "default_warehouse")))
unfolding check_settled new_sql_executor query_show_compute_nodes sync_compute_nodes_in_fe
    sort_nodes fe_warehouse drop_nodes annotation new_from_cluster ledger
dropped_example =
    sync_compute_nodes_in_fe-statements client settings sql ledger sorts one
      (with_replicas none set) (with_replicas none set) (pod "sr-cn-0" true ∷ []) single shrunk 1
      executor nodes_by_warehouse refl refl refl refl

-- A FE that refuses every statement.
abbrev refusing : Sql Server ComputeNode
refusing = record sql { exec = λ dsn statement w. (err (failure "warehouse is in use"), w) }

abbrev held : StatefulSet
held =
    let sts = with_replicas none set in
    record sts { meta = record (sts.meta) { finalizers = some ("warehouse" ∷ []) } }

abbrev holding : Server
holding = record server { sts = some held }

clear_warehouse_example :
    clear_warehouse client settings refusing "db" "w" holding
    ≡ client.statefulsets.update (with_replicas none set) holding
unfolding new_sql_executor execute_drop_warehouse
clear_warehouse_example =
    clear_warehouse-any_answer client settings refusing "db" "w" holding holding executor
      (err (failure "warehouse is in use")) held refl refl refl
