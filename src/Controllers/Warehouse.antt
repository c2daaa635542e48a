-- ===== src/Controllers/Warehouse.antt =====
-- The reconciler of StarRocksWarehouse: pkg/controllers/starrockswarehouse_controller.go.
-- `status` of a warehouse is the field WarehouseComponentStatus, a pointer whose phase and reason the
-- code assigns through the embedded struct: a nil one panics.
pub mod Laws
use starrocks_kubernetes_ope.Base.{
  String, Option, none, some, List, [], ◌∷◌, Bool, true, false, Result, ok, err, panic, Error,
  is_not_found, error_text, is_error, err_spec_is_missing, err_starrocks_cluster_is_missing,
  err_fe_is_not_ready, err_failed_to_get_fe_feature_list, if◌then◌else◌, ◌||◌, pos,
}
use starrocks_kubernetes_ope.Base.Results.Stateful.{M, ◌>>=◌, ◌>>◌, pure, fail, read, try}
use starrocks_kubernetes_ope.Kube.{Key, key_of}
use starrocks_kubernetes_ope.Api.{
  ComponentPhase, component_reconciling, component_failed, version_unset, StarRocksComponentStatus,
  StarRocksCnStatus, StarRocksWarehouse,
}

-- The warehouse that a reconcile works on, and the world.
pub record Local (W : Type 0) : Type 0 where
  pub warehouse : StarRocksWarehouse
  pub world : W

-- WarehouseSubController
pub record WarehouseSubController (W : Type 0) : Type 0 where
  pub clear_warehouse : (namespace name : String) → M W (Unit {0})
  pub sync_warehouse : M (Local W) (Unit {0})
  pub update_warehouse_status : M (Local W) (Unit {0})

pub record WarehouseClient (W : Type 0) : Type 0 where
  pub get_warehouse : Key → W → Result StarRocksWarehouse
  pub update_status : StarRocksWarehouse → M W (Unit {0})
  pub retry_on_conflict : M W (Unit {0}) → M W (Unit {0})

-- &StarRocksCnStatus{StarRocksComponentStatus{Phase: ComponentReconciling}}
abbrev pub new_status : StarRocksCnStatus
new_status = record {
  component = record {
    service_name = "";
    failed_instances = [];
    creating_instances = [];
    running_instances = [];
    resource_names = [];
    phase = component_reconciling;
    reason = "";
  };
  hpa_name = "";
  horizontal_scaler = record { name = ""; version = version_unset };
  replicas = pos 0;
  selector = "";
}

abbrev pub initialised : StarRocksWarehouse → StarRocksWarehouse
initialised warehouse = elim warehouse.status [
  | none ↦ record warehouse { status = some new_status }
  | some _ ↦ warehouse
]

abbrev pub failed_status : Error → StarRocksCnStatus → StarRocksCnStatus
failed_status e status = record status {
  component = record (status.component) { phase = component_failed; reason = error_text e };
}

with_failure :
    {W : Type 0} → Error → Local W → Option StarRocksCnStatus → Result (Unit {0}) × Local W
with_failure e l none = (panic "nil pointer", l)
with_failure e l (some status) = (
  ok tt,
  record l { warehouse = record (l.warehouse) { status = some (failed_status e status) } },
)

-- warehouse.Status.Phase = ComponentFailed; warehouse.Status.Reason = err.Error()
unfoldable mark_failed : {W : Type 0} → Error → M (Local W) (Unit {0})
unfolding with_failure
mark_failed e l = with_failure e l l.warehouse.status

-- What handleSyncWarehouseError answers: whether the reconcile is not to be tried again.
unfoldable pub is_handled : Error → Bool
unfolding is_error
is_handled e =
    is_error e err_spec_is_missing
    || is_error e err_starrocks_cluster_is_missing
    || is_error e err_fe_is_not_ready
    || is_error e err_failed_to_get_fe_feature_list

abbrev pub with_world : {W A : Type 0} → Local W → Result A × W → Result A × Local W
with_world l (r, w) = (r, record l { world = w })

abbrev pub on_world : {W A : Type 0} → M W A → M (Local W) A
on_world m l = with_world l (m l.world)

module _ {W : Type 0} (client : WarehouseClient W) where
  -- UpdateStarRocksWarehouseStatus
  unfoldable pub update_warehouse_status : StarRocksWarehouse → M W (Unit {0})
  update_warehouse_status warehouse = client.retry_on_conflict (do
    actual ← read (client.get_warehouse (key_of warehouse.meta))
    client.update_status (record actual { status = warehouse.status }))

  update_local : M (Local W) (Unit {0})
  unfolding update_warehouse_status
  update_local l = on_world (update_warehouse_status l.warehouse) l

  give_up : Error → (handled : Bool) → M (Local W) (Option (Unit {0}))
  give_up e true = pure (some tt)
  give_up e false = fail e

  -- The answer `none` goes on with the next sub-controller, `some` returns without an error.
  after_sync : Result (Unit {0}) → M (Local W) (Option (Unit {0}))
  unfolding mark_failed is_handled update_local give_up
  after_sync (ok done) = pure none
  after_sync (panic p) = read (λ _. panic p)
  after_sync (err e) = do mark_failed e; update_local; give_up e (is_handled e)

  sync_all : List (WarehouseSubController W) → M (Local W) (Option (Unit {0}))
  unfolding after_sync
  sync_all [] = pure none
  sync_all (controller ∷ controllers) = (try controller.sync_warehouse >>= after_sync) >>= λ answer.
      elim answer [ none ↦ sync_all controllers | some done ↦ pure (some done) ]

  after_status : Result (Unit {0}) → M (Local W) (Unit {0})
  unfolding mark_failed update_local
  after_status (ok done) = pure tt
  after_status (panic p) = read (λ _. panic p)
  after_status (err e) = do mark_failed e; updated ← try update_local; fail e

  status_all : List (WarehouseSubController W) → M (Local W) (Unit {0})
  unfolding after_status
  status_all [] = pure tt
  status_all (controller ∷ controllers) =
      (try controller.update_warehouse_status >>= after_status) >> status_all controllers

  reconcile_found : List (WarehouseSubController W) → M (Local W) (Unit {0})
  unfolding sync_all status_all update_local
  reconcile_found controllers = do
    answer ← sync_all controllers
    elim answer [ some done ↦ pure tt | none ↦ status_all controllers >> update_local ]

  -- Every sub-controller clears, whatever those before it answered.
  clear_all : List (WarehouseSubController W) → (namespace name : String) → M W (Unit {0})
  clear_all [] namespace name = pure tt
  clear_all (controller ∷ controllers) namespace name = do
    cleared ← try (controller.clear_warehouse namespace name)
    clear_all controllers namespace name

  reconcile_warehouse : List (WarehouseSubController W) → StarRocksWarehouse → M W (Unit {0})
  unfolding reconcile_found
  reconcile_warehouse controllers warehouse w =
      let (r, l) =
        reconcile_found controllers (record { warehouse = initialised warehouse; world = w }) in
      (r, l.world)

  -- Reconcile; its first result is always the empty ctrl.Result
  unfoldable pub reconcile : List (WarehouseSubController W) → Key → M W (Unit {0})
  unfolding reconcile_warehouse clear_all
  reconcile controllers key = do
    found ← try (read (client.get_warehouse key))
    elim found [
      | ok warehouse ↦ reconcile_warehouse controllers warehouse
      | err e ↦ if is_not_found e then clear_all controllers key.namespace key.name else fail e
      | panic p ↦ read (λ _. panic p)
    ]
