-- ===== src/Tests/Objects.antt =====
-- The operations on Kubernetes objects at concrete inputs.
use starrocks_kubernetes_ope.Base.{
  none, some, [], ◌∷◌, ok, not_found, is_not_found, ◌≡◌, ◌↔◌, refl, sym, ap, false, pos,
}
use starrocks_kubernetes_ope.Kube.{annotation, key_of, Volume, VolumeMount, empty_dir}
use starrocks_kubernetes_ope.K8sutils.Equality.{service_deep_equal}
use starrocks_kubernetes_ope.K8sutils.Apply.{apply_service}
use starrocks_kubernetes_ope.K8sutils.Objects.{create_client_object}
use starrocks_kubernetes_ope.K8sutils.Volumes.{check_volumes}
use starrocks_kubernetes_ope.K8sutils.Volumes.Laws.{check_volumes_iff, Distinct}
use starrocks_kubernetes_ope.K8sutils.Apply.Twice.{apply_service_twice, StoresServices}
use starrocks_kubernetes_ope.Api.{fe, StarRocksService}
use starrocks_kubernetes_ope.K8sutils.Services.{build_external_service, plain_ports}
use starrocks_kubernetes_ope.K8sutils.Services.Laws.{
  targets, configured_targets, build_external_service-targets,
}
use starrocks_kubernetes_ope.Templates.Names.{new_from_cluster}
use starrocks_kubernetes_ope.Tests.Fixtures.{client, server, Server, set, service, cluster}

abbrev running : Server
running = record server { sts = some set }

stores : StoresServices client
stores = record {
  stored =
      λ o o' w w' e. (o, sym (ap (λ r. client.services.get (key_of o.meta) r.1) e), refl, refl);
}

abbrev created : Server
created = record server {
  svc = some (record service {
    meta = record (service.meta) {
      annotations = some (
          ("app.starrocks.components/hash", "h1")
          ∷ ("starrocks.kubernetes.operator/last-applied-configuration", "{}")
          ∷ []);
    };
  });
}

apply_service_twice_example :
    apply_service client service (service_deep_equal client) created ≡ (ok tt, created)
unfolding apply_service annotation is_not_found create_client_object
apply_service_twice_example =
    apply_service_twice client stores service "h1" refl (not_found "not found") server created refl
      refl refl

abbrev data_volume : Volume
data_volume = record { name = "data"; source = empty_dir }

abbrev mount : VolumeMount
mount = record { name = "data"; mount_path = "/data"; sub_path = ""; read_only = false }

check_volumes_example :
    (check_volumes (data_volume ∷ []) (mount ∷ []) ≡ ok tt)
    ↔ (Distinct ("/data" ∷ []) × Distinct ("data" ∷ []))
check_volumes_example = check_volumes_iff (data_volume ∷ []) (mount ∷ [])

-- A service that moves the query port and brings a hash of its own.
abbrev asked : StarRocksService
asked = record {
  type = "NodePort";
  load_balancer_ip = "";
  external_traffic_policy = "";
  load_balancer_source_ranges = none;
  ports = some (
      record { name = "query"; port = pos 19030; container_port = pos 0; node_port = pos 30030 }
      ∷ []);
  annotations = some (("app.starrocks.components/hash", "theirs") ∷ []);
  labels = none;
}

build_external_service-targets_example :
    targets
      (build_external_service client (new_from_cluster cluster) fe (some asked) [] [] []).spec.ports
    ≡ configured_targets (plain_ports fe [])
build_external_service-targets_example =
    build_external_service-targets client (new_from_cluster cluster) fe (some asked) [] [] []
