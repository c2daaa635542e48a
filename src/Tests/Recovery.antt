-- ===== src/Tests/Recovery.antt =====
-- Disaster recovery at concrete inputs.
use starrocks_kubernetes_ope.Base.{pos, none, some, [], ◌∷◌, ◌≡◌, ◌↔◌, refl, true}
use starrocks_kubernetes_ope.Api.{dr_doing, dr_done}
use starrocks_kubernetes_ope.K8sutils.Config.Ports.{get_port, query_port}
use starrocks_kubernetes_ope.Subcontrollers.Fe.Checks.{
  is_run_in_shared_data_mode, check_fe_ready_in_disaster_recovery,
}
use starrocks_kubernetes_ope.Subcontrollers.Fe.Recovery.{
  should_enter_disaster_recovery_mode, enter_disaster_recovery_mode, current_status, is_pending,
  snapshot_conf,
}
use starrocks_kubernetes_ope.Subcontrollers.Fe.Recovery.Laws.{
  should_enter_iff, recovery_completes, resume,
}
use starrocks_kubernetes_ope.Subcontrollers.Fe.Recovery.Steps.{
  enter_disaster_recovery_mode-RecoveryStep, RecoveryStep,
}
use starrocks_kubernetes_ope.Tests.Fixtures.{
  client, server, Server, set, container, pod, cluster, recovery,
}

should_enter_example :
    (should_enter_disaster_recovery_mode (some recovery) none (("run_mode", "shared_data") ∷ [])
      ≡ some (pos 9030))
    ↔ ((is_run_in_shared_data_mode (("run_mode", "shared_data") ∷ []) ≡ true)
        × (recovery.enabled ≡ true)
        × Unit {0}
        × (get_port (("run_mode", "shared_data") ∷ []) query_port ≡ pos 9030))
should_enter_example = should_enter_iff recovery none (("run_mode", "shared_data") ∷ []) (pos 9030)

enter-RecoveryStep :
    let result = enter_disaster_recovery_mode client cluster recovery set (pos 9030) server in
    RecoveryStep
      (pos 7)
      (pos 9030)
      (snapshot_conf cluster.spec.fe_spec)
      (check_fe_ready_in_disaster_recovery client "db" "sr" (pos 7) server)
      (current_status recovery none (pos 100)).phase
      set
      result.0
      result.1.status.phase
      result.1.sts
enter-RecoveryStep =
    enter_disaster_recovery_mode-RecoveryStep client cluster recovery set (pos 9030) server

abbrev recovered : Server
recovered = record server { pods = pod "sr-fe-0" true ∷ [] }

recovery_completes_example :
    let first =
      (enter_disaster_recovery_mode client cluster recovery set (pos 9030) server).1.status in
    let second =
      (enter_disaster_recovery_mode client
        (resume cluster first)
        recovery
        set
        (pos 9030)
        recovered).1.status in
    (first.phase ≡ dr_doing)
    × (second.phase ≡ dr_done)
    × (should_enter_disaster_recovery_mode (some recovery) (some second) [] ≡ none)
unfolding is_pending current_status snapshot_conf check_fe_ready_in_disaster_recovery
recovery_completes_example =
    recovery_completes client cluster recovery set (pos 9030) [] server recovered container [] refl
      refl refl refl refl
