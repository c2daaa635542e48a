-- ===== src/Controllers/Cluster.antt =====
-- The reconciler of StarRocksCluster: pkg/controllers/starrockscluster_controller.go.
-- The sub-controllers are what ClusterSubController promises: operations that may fail and that
-- change the cluster at hand, in place, and the world.
pub mod Keeps
pub mod Laws
use starrocks_kubernetes_ope.Base.{
  String, ℤ, Option, none, some, List, [], ◌∷◌, Result, ok, err, panic, Error, is_not_found,
  error_text, ◌<>◌, ◌+◌, if◌then◌else◌,
}
use starrocks_kubernetes_ope.Base.Results.Stateful.{M, ◌>>=◌, ◌>>◌, pure, fail, read, try}
use starrocks_kubernetes_ope.Kube.{Key, key_of, ObjectMeta}
use starrocks_kubernetes_ope.Api.{
  SpecKind, fe, be, cn, fe_proxy, Phase, phase_unset, cluster_running, cluster_failed,
  cluster_reconciling, ComponentPhase, component_reconciling, component_failed, component_running,
  StarRocksComponentStatus, StarRocksCnStatus, StarRocksCluster, StarRocksClusterStatus,
}

-- The cluster that a reconcile works on, and the world.
pub record Local (W : Type 0) : Type 0 where
  pub src : StarRocksCluster
  pub world : W

-- ClusterSubController; `kind` is its dynamic type
pub record ClusterSubController (W : Type 0) : Type 0 where
  pub kind : SpecKind
  pub sync_cluster : M (Local W) (Unit {0})
  pub update_cluster_status : M (Local W) (Unit {0})

-- The calls of the reconciler's own client on the custom resource.
pub record ClusterClient (W : Type 0) : Type 0 where
  pub get_cluster : Key → W → Result StarRocksCluster
  pub update_status : StarRocksCluster → M W (Unit {0})
  pub retry_on_conflict : M W (Unit {0}) → M W (Unit {0})

-- GetPhaseFromComponent
unfoldable pub phase_from_component : Option StarRocksComponentStatus → Phase
phase_from_component none = phase_unset
phase_from_component (some status) = elim status.phase [
  | component_reconciling ↦ cluster_reconciling
  | component_failed ↦ cluster_failed
  | component_running ↦ phase_unset
]

abbrev pub cn_component : Option StarRocksCnStatus → Option StarRocksComponentStatus
cn_component none = none
cn_component (some status) = some status.component

-- The first phase that is set, else the last.
first_set : Phase → Phase → Phase
first_set phase_unset other = other
first_set phase other = phase

-- reconcileStatus
unfoldable pub reconcile_status : StarRocksCluster → StarRocksCluster
unfolding phase_from_component first_set
reconcile_status src =
    let status = src.status in
    record src {
      status = record status {
        phase = first_set (phase_from_component status.fe_status) (
            first_set (phase_from_component status.be_status)
              (first_set (phase_from_component (cn_component status.cn_status)) cluster_running));
        reason = "";
      };
    }

unfoldable pub controller_title : SpecKind → String
controller_title fe = "FE"
controller_title be = "BE"
controller_title cn = "CN"
controller_title fe_proxy = "fe-proxy"

-- handleSyncClusterError
unfoldable pub handle_sync_cluster_error : SpecKind → Error → StarRocksCluster → StarRocksCluster
unfolding controller_title error_text
handle_sync_cluster_error kind e src = record src {
  status = record (src.status) {
    phase = cluster_failed;
    reason = "error from " <> controller_title kind <> " controller: " <> error_text e;
  };
}

-- A call on the world alone.
abbrev pub with_world : {W A : Type 0} → Local W → Result A × W → Result A × Local W
with_world l (r, w) = (r, record l { world = w })

abbrev pub on_world : {W A : Type 0} → M W A → M (Local W) A
on_world m l = with_world l (m l.world)

-- An assignment to the cluster at hand.
abbrev pub modify : {W : Type 0} → (StarRocksCluster → StarRocksCluster) → M (Local W) (Unit {0})
modify f l = (ok tt, record l { src = f l.src })

abbrev pub unless_deleted : {S : Type 0} → Option ℤ → M S (Unit {0}) → M S (Unit {0})
unless_deleted none m = m
unless_deleted (some time) m = pure tt

module _ {W : Type 0} (client : ClusterClient W) where
  -- UpdateStarRocksClusterStatus
  unfoldable pub update_cluster_status : StarRocksCluster → M W (Unit {0})
  update_cluster_status src = client.retry_on_conflict (do
    actual ← read (client.get_cluster (key_of src.meta))
    client.update_status (record actual { status = src.status }))

  -- The body of an `if err = …; err != nil` of the two loops: the error of the status update is only
  -- logged.
  unfoldable on_error : SpecKind → Error → M (Local W) (Unit {0})
  unfolding update_cluster_status handle_sync_cluster_error
  on_error kind e = do
    modify (handle_sync_cluster_error kind e)
    updated ← try (λ l. on_world (update_cluster_status l.src) l)
    fail e

  unfoldable settle : SpecKind → Result (Unit {0}) → M (Local W) (Unit {0})
  unfolding on_error
  settle kind (ok done) = pure tt
  settle kind (err e) = on_error kind e
  settle kind (panic p) = read (λ _. panic p)

  -- The loop over SyncCluster, and that over UpdateClusterStatus.
  unfoldable pub run_all :
      (ClusterSubController W → M (Local W) (Unit {0}))
      → List (ClusterSubController W)
      → M (Local W) (Unit {0})
  unfolding settle
  run_all step [] = pure tt
  run_all step (controller ∷ controllers) =
      (try (step controller) >>= settle controller.kind) >> run_all step controllers

  -- What Reconcile does with a cluster that is not being deleted.
  unfoldable pub reconcile_found : List (ClusterSubController W) → M (Local W) (Unit {0})
  unfolding run_all reconcile_status update_cluster_status
  reconcile_found controllers = do
    run_all (λ controller. controller.sync_cluster) controllers
    run_all (λ controller. controller.update_cluster_status) controllers
    modify reconcile_status
    λ l. on_world (update_cluster_status l.src) l

  reconcile_alive : List (ClusterSubController W) → StarRocksCluster → M W (Unit {0})
  unfolding reconcile_found
  reconcile_alive controllers src w =
      let (r, l) = reconcile_found controllers (record { src = src; world = w }) in (r, l.world)

  reconcile_cluster : List (ClusterSubController W) → StarRocksCluster → M W (Unit {0})
  unfolding reconcile_alive
  reconcile_cluster controllers src =
      unless_deleted src.meta.deletion_timestamp (reconcile_alive controllers src)

  -- Reconcile; its first result is always the empty ctrl.Result
  unfoldable pub reconcile : List (ClusterSubController W) → Key → M W (Unit {0})
  unfolding reconcile_cluster
  reconcile controllers key = do
    found ← try (read (client.get_cluster key))
    elim found [
      | ok src ↦ reconcile_cluster controllers src
      | err e ↦ if is_not_found e then pure tt else fail e
      | panic p ↦ read (λ _. panic p)
    ]
