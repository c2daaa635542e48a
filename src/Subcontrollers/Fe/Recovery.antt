-- ===== src/Subcontrollers/Fe/Recovery.antt =====
-- Disaster recovery: pkg/subcontrollers/fe/fe_disaster_recovery.go.
pub mod Laws
pub mod Steps
use starrocks_kubernetes_ope.Base.{
  String, ℤ, pos, Option, none, some, List, [], ◌∷◌, ◌++◌, Dict, contains, has_suffix, Bool, true,
  false, Result, ok, err, panic, failure, ltz, eqz, format_int, if◌then◌else◌, ◌||◌, ◌&&◌, not,
}
use starrocks_kubernetes_ope.Kube.{StatefulSet, Container, EnvVar}
use starrocks_kubernetes_ope.Kube.Client.{Client}
use starrocks_kubernetes_ope.Api.{
  DisasterRecovery, DisasterRecoveryStatus, DrPhase, dr_todo, dr_doing, dr_done, dr_other,
  new_disaster_recovery_status, MountInfo, StarRocksCluster, StarRocksFeSpec,
}
use starrocks_kubernetes_ope.K8sutils.Config.Ports.{get_port, query_port}
use starrocks_kubernetes_ope.Templates.Probes.{port_ready_probe}
use starrocks_kubernetes_ope.Subcontrollers.Fe.Checks.{
  is_run_in_shared_data_mode, check_fe_ready_in_disaster_recovery,
}

is_phase_done : DrPhase → Bool
is_phase_done dr_done = true
is_phase_done _ = false

-- Whether the status lags behind the specification.
unfoldable pub is_pending : DisasterRecovery → Option DisasterRecoveryStatus → Bool
unfolding is_phase_done
is_pending spec none = true
is_pending spec (some status) =
    ltz status.observed_generation spec.generation
    || (eqz spec.generation status.observed_generation && not (is_phase_done status.phase))

-- ShouldEnterDisasterRecoveryMode: the query port where the first result is true
unfoldable pub should_enter_disaster_recovery_mode :
    Option DisasterRecovery → Option DisasterRecoveryStatus → Dict String → Option ℤ
unfolding is_run_in_shared_data_mode is_pending get_port
should_enter_disaster_recovery_mode none status config = none
should_enter_disaster_recovery_mode (some spec) status config =
    if not (is_run_in_shared_data_mode config)
    then none
    else if not spec.enabled
    then none
    else if is_pending spec status
    then some (get_port config query_port)
    else none

-- hasClusterSnapshotConf
unfoldable pub has_cluster_snapshot_conf : List MountInfo → Bool
unfolding contains has_suffix
has_cluster_snapshot_conf [] = false
has_cluster_snapshot_conf (m ∷ ms) =
    let rest = has_cluster_snapshot_conf ms in
    if contains m.sub_path "cluster_snapshot.yaml"
      || has_suffix m.mount_path "fe/conf"
      || has_suffix m.mount_path "fe/conf/"
    then true
    else rest

unfoldable pub rewrite_container : (generation query_port : ℤ) → Container → Container
unfolding format_int
rewrite_container generation query_port container = record container {
  startup_probe = none;
  liveness_probe = none;
  readiness_probe = some (port_ready_probe query_port);
  env =
      container.env
      ++ (record {
        name = "RESTORE_CLUSTER_GENERATION";
        value = format_int generation;
        value_from = none;
      })
        ∷ (record { name = "RESTORE_CLUSTER_SNAPSHOT"; value = "true"; value_from = none })
        ∷ [];
}

with_containers : List Container → StatefulSet → StatefulSet
with_containers containers sts = record sts {
  spec = record (sts.spec) {
    replicas = some (pos 1);
    template = record (sts.spec.template) {
      spec = record (sts.spec.template.spec) { containers = containers };
    };
  };
}

rewrite_first : (generation port : ℤ) → StatefulSet → List Container → Result StatefulSet
unfolding rewrite_container with_containers
rewrite_first generation port sts [] = panic "index out of range"
rewrite_first generation port sts (container ∷ containers) =
    ok (with_containers (rewrite_container generation port container ∷ containers) sts)

-- rewriteStatefulSetForDisasterRecovery; a template without a container is out of range
unfoldable pub rewrite_statefulset : (generation query_port : ℤ) → StatefulSet → Result StatefulSet
unfolding rewrite_first
rewrite_statefulset generation query_port sts =
    rewrite_first generation query_port sts sts.spec.template.spec.containers

-- What the code changes: the status of the recovery, and the stateful set to deploy.
pub record Recovering : Type 0 where
  pub status : DisasterRecoveryStatus
  pub sts : StatefulSet

-- The status at which the switch over the phase looks.
unfoldable pub current_status :
    DisasterRecovery → Option DisasterRecoveryStatus → (now : ℤ) → DisasterRecoveryStatus
unfolding new_disaster_recovery_status
current_status spec none now = new_disaster_recovery_status spec.generation now
current_status spec (some status) now =
    if ltz status.observed_generation spec.generation
    then new_disaster_recovery_status spec.generation now
    else status

abbrev rewritten :
    Result StatefulSet
    → DisasterRecoveryStatus
    → (before : Recovering) → Result (Unit {0}) × Recovering
rewritten (ok sts) status before = (ok tt, record { status = status; sts = sts })
rewritten (err e) status before = (err e, before)
rewritten (panic p) status before = (panic p, before)

-- The cases of the switch over the phase, for a cluster whose snapshot is configured or not, and
-- whose pods have recovered or not.
unfoldable phase_step :
    DrPhase
    → (generation port now : ℤ) (has_conf is_ready : Bool) → Recovering
    → Result (Unit {0}) × Recovering
unfolding rewrite_statefulset
phase_step dr_todo generation port now false is_ready r = (
  err (failure "cluster_snapshot.yaml is not mounted"),
  record r {
    status = record (r.status) { phase = dr_todo; reason = "cluster_snapshot.yaml is not mounted" };
  },
)
phase_step dr_todo generation port now true is_ready r =
    rewritten (rewrite_statefulset generation port r.sts)
      (record (r.status) {
        phase = dr_doing;
        reason = "has changed to pod template for disaster recovery";
      })
      r
phase_step dr_doing generation port now has_conf false r =
    rewritten (rewrite_statefulset generation port r.sts)
      (record (r.status) { reason = "disaster recovery is in progress" }) r
phase_step dr_doing generation port now has_conf true r =
    rewritten (rewrite_statefulset generation port r.sts)
      (record (r.status) {
        phase = dr_done;
        reason = "disaster recovery is done";
        end_timestamp = now;
      })
      r
phase_step dr_done generation port now has_conf is_ready r = (ok tt, r)
phase_step (dr_other text) generation port now has_conf is_ready r = (ok tt, r)

unfoldable pub snapshot_conf : Option StarRocksFeSpec → Bool
unfolding has_cluster_snapshot_conf
snapshot_conf none = false
snapshot_conf (some spec) = has_cluster_snapshot_conf spec.config_maps

module _ (c : Client) where
  -- EnterDisasterRecoveryMode, of a cluster that has an FE and a disaster recovery, as the caller has
  -- found
  unfoldable pub enter_disaster_recovery_mode :
      StarRocksCluster
      → DisasterRecovery
      → StatefulSet
      → (query_port : ℤ) → c.World
      → Result (Unit {0}) × Recovering
  unfolding current_status phase_step check_fe_ready_in_disaster_recovery snapshot_conf
  enter_disaster_recovery_mode src spec sts query_port w =
      let status = current_status spec src.status.disaster_recovery_status (c.now w) in
      phase_step status.phase spec.generation query_port (c.now w) (snapshot_conf src.spec.fe_spec)
        (check_fe_ready_in_disaster_recovery c src.meta.namespace src.meta.name spec.generation w)
        (record { status = status; sts = sts })
