-- ===== src/Tests/Reconcilers.antt =====
-- The reconcilers at concrete inputs.
use starrocks_kubernetes_ope.Base.{
  Option, none, some, [], ◌∷◌, All, Result, ok, err, failure, not_found, sentinel,
  err_spec_is_missing, ◌≡◌, ◌≢◌, ◌↔◌, refl, true, split,
}
use starrocks_kubernetes_ope.Kube.{Key, key_of, annotation}
use starrocks_kubernetes_ope.Api.{be, StarRocksCluster, StarRocksWarehouse, cluster_running}
use starrocks_kubernetes_ope.Controllers.Predicates.{should_reconcile, deny_list}
use starrocks_kubernetes_ope.Controllers.Predicates.Laws.{should_reconcile_iff, Denies}
use starrocks_kubernetes_ope.Controllers.Cluster.{
  ClusterClient, ClusterSubController, reconcile_status, cn_component, run_all,
  handle_sync_cluster_error,
}
use starrocks_kubernetes_ope.Controllers.Cluster.Laws.{
  reconcile_status_running_iff, reconcile-first_error, IsUp,
}
use starrocks_kubernetes_ope.Controllers.Cluster as Cluster
use starrocks_kubernetes_ope.Controllers.Warehouse.{
  WarehouseClient, WarehouseSubController, new_status, initialised,
}
use starrocks_kubernetes_ope.Controllers.Warehouse as Warehouse
use starrocks_kubernetes_ope.Controllers.Warehouse.Laws.{Answers, reconcile-sync_error, marked}
use starrocks_kubernetes_ope.Tests.Fixtures.{meta, cluster, warehouse}

should_reconcile_example : (should_reconcile (deny_list "a, db") (some (meta "sr")) ≡ true) ↔ (
    All (λ entry. ¬ Denies "db" entry) (split b',' "a, db")
    × (annotation "starrocks.com/ignored" (meta "sr") ≢ some "true"))
should_reconcile_example = should_reconcile_iff "a, db" (meta "sr")

reconcile_status_example :
    ((reconcile_status cluster).status.phase ≡ cluster_running)
    ↔ (IsUp none × IsUp none × IsUp (cn_component none))
reconcile_status_example = reconcile_status_running_iff cluster

abbrev found : {A : Type 0} → Option A → Result A
found none = err (not_found "gone")
found (some a) = ok a

-- The world of a cluster is the stored cluster.
abbrev cluster_client : ClusterClient (Option StarRocksCluster)
cluster_client = record {
  get_cluster = λ key w. found w;
  update_status = λ src w. (ok tt, some src);
  retry_on_conflict = λ m. m;
}

abbrev broken : ClusterSubController (Option StarRocksCluster)
broken = record {
  kind = be;
  sync_cluster = λ l. (err (failure "no route"), l);
  update_cluster_status = λ l. (ok tt, l);
}

abbrev key : Key
key = key_of (meta "sr")

first_error_example :
    Cluster.reconcile cluster_client (broken ∷ []) key (some cluster)
    ≡ (err (failure "no route"), some (handle_sync_cluster_error be (failure "no route") cluster))
unfolding Cluster.update_cluster_status run_all handle_sync_cluster_error
first_error_example =
    reconcile-first_error cluster_client [] [] broken key cluster
      (record { src = cluster; world = some cluster })
      (record { src = cluster; world = some cluster }) (failure "no route") (ok tt) (some cluster)
      (some (handle_sync_cluster_error be (failure "no route") cluster)) refl refl refl refl refl

abbrev warehouse_client : WarehouseClient (Option StarRocksWarehouse)
warehouse_client = record {
  get_warehouse = λ key w. found w;
  update_status = λ src w. (ok tt, some src);
  retry_on_conflict = λ m. m;
}

abbrev incomplete : WarehouseSubController (Option StarRocksWarehouse)
incomplete = record {
  clear_warehouse = λ namespace name w. (ok tt, w);
  sync_warehouse = λ l. (err (sentinel err_spec_is_missing), l);
  update_warehouse_status = λ l. (ok tt, l);
}

abbrev local : Warehouse.Local (Option StarRocksWarehouse)
local = record { warehouse = initialised warehouse; world = some warehouse }

sync_error_example :
    (r : Result (Unit {0})) × (Warehouse.reconcile warehouse_client
        (incomplete ∷ [])
        key
        (some warehouse)
      ≡ (
        r,
        some (marked warehouse_client (sentinel err_spec_is_missing) new_status local).warehouse,
      ))
    × Answers (sentinel err_spec_is_missing) r
unfolding Warehouse.update_warehouse_status marked
sync_error_example =
    reconcile-sync_error warehouse_client incomplete [] key warehouse new_status local
      (sentinel err_spec_is_missing) (some warehouse)
      (some (marked warehouse_client (sentinel err_spec_is_missing) new_status local).warehouse)
      refl refl refl refl
