-- ===== src/Tests/Workloads.antt =====
-- Names, pods, probes, versions and roll outs at concrete inputs.
use starrocks_kubernetes_ope.Base.{
  ℕ, pos, none, some, [], ◌∷◌, ok, ◌≡◌, ◌↔◌, refl, true, false, Any, arith, ◌<◌, ◌≤◌, ◌*◌, ◌+◌,
}
use starrocks_kubernetes_ope.Kube.{http_get}
use starrocks_kubernetes_ope.Templates.Rollout.{statefulset_status}
use starrocks_kubernetes_ope.Templates.Rollout.Laws.{HasReached, is_done}
use starrocks_kubernetes_ope.Templates.PodCount.{count_pods}
use starrocks_kubernetes_ope.Templates.PodCount.Laws.{
  count_pods-occurrences, occurrences, pod_names,
}
use starrocks_kubernetes_ope.Templates.Versions.{Version, parse_version, is_lower_than_any}
use starrocks_kubernetes_ope.Templates.Versions.Laws.{is_lower_than_any_sound, IsAbove}
use starrocks_kubernetes_ope.Templates.Probes.{complete_probe, make_probe}
use starrocks_kubernetes_ope.Templates.Probes.Laws.{complete_probe-IsLeast}
use starrocks_kubernetes_ope.Api.{StorageVolume, MountInfo}
use starrocks_kubernetes_ope.Templates.Mounts.{mount_storage_volumes}
use starrocks_kubernetes_ope.Templates.Mounts.Laws.{mount_storage_volumes-mounts, mounts_of}
use starrocks_kubernetes_ope.Subcontrollers.Status.{
  update_status, rollout_of, stateful_set_load_type,
}
use starrocks_kubernetes_ope.Subcontrollers.Status.Laws.{update_status-phase, phase_of, answer_of}
use starrocks_kubernetes_ope.Subcontrollers.Progress.{new_component_status}
use starrocks_kubernetes_ope.Subcontrollers.Fe.Checks.{is_fully_rolled_out}
use starrocks_kubernetes_ope.Subcontrollers.Fe.Checks.Laws.{is_fully_rolled_out_iff}
use starrocks_kubernetes_ope.Tests.Fixtures.{client, server, Server, set, pod}

fully_rolled_out_example : (is_fully_rolled_out set ≡ true) ↔ (
    HasReached set.status.ready_replicas (some (pos 3))
    × (set.status.update_revision ≡ set.status.current_revision))
fully_rolled_out_example = is_fully_rolled_out_iff set

count_pods_example :
    occurrences "b" (count_pods (pod "a" true ∷ pod "b" false ∷ [])).creating
      + occurrences "b" (count_pods (pod "a" true ∷ pod "b" false ∷ [])).ready
      + occurrences "b" (count_pods (pod "a" true ∷ pod "b" false ∷ [])).failed
    ≡ occurrences "b" (pod_names (pod "a" true ∷ pod "b" false ∷ []))
count_pods_example = count_pods-occurrences "b" (pod "a" true ∷ pod "b" false ∷ [])

lower_example :
    (check : Version) × (parse_version "3.1.3" ≡ ok check)
    × Any (IsAbove check) ("3.2.1" ∷ "3.1.4" ∷ [])
unfolding is_lower_than_any
lower_example = is_lower_than_any_sound "3.1.3" ("3.2.1" ∷ "3.1.4" ∷ []) refl

probe_example :
    (n : ℕ) × (complete_probe (some (pos 301)) (pos 60) 5 (http_get "/api/health" (pos 8030))
      ≡ some (make_probe (pos 5) (http_get "/api/health" (pos 8030)) (pos n)))
    × (301 ≤ n * 5)
    × (n * 5 < 301 + 5)
probe_example =
    complete_probe-IsLeast 301 (pos 60) (http_get "/api/health" (pos 8030)) (omega arith)
      (omega arith)

abbrev ready_world : Server
ready_world = record server { sts = some set; pods = pod "sr-fe-0" true ∷ [] }

update_status_example :
    let status =
      update_status client "db" "sr-fe" [] stateful_set_load_type ready_world
        new_component_status in
    let counts = count_pods (pod "sr-fe-0" true ∷ []) in
    (status.0 ≡ answer_of counts (statefulset_status set))
    × (status.1.phase ≡ phase_of counts (is_done (statefulset_status set)))
unfolding rollout_of
update_status_example =
    update_status-phase client "db" "sr-fe" [] stateful_set_load_type ready_world
      new_component_status (pod "sr-fe-0" true ∷ []) refl

abbrev data_volume : StorageVolume
data_volume = record {
  name = "data";
  storage_class_name = none;
  storage_size = "1Gi";
  host_path = none;
  csi = none;
  mount_path = "/data";
  sub_path = "";
  read_only = true;
}

abbrev conf : MountInfo
conf = record { name = "cm"; mount_path = "/conf"; sub_path = "" }

storage_mounts_example :
    (mount_storage_volumes (data_volume ∷ [])).mounts ≡ mounts_of (data_volume ∷ [])
storage_mounts_example = mount_storage_volumes-mounts (data_volume ∷ [])
