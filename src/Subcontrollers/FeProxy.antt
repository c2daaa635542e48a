-- ===== src/Subcontrollers/FeProxy.antt =====
-- The FE proxy sub-controller: pkg/subcontrollers/feproxy/feproxy_controller.go.
pub mod Nginx
pub mod ConfigMaps
pub mod Status
use starrocks_kubernetes_ope.Base.{
  String, pos, Option, none, some, [], ◌∷◌, Bool, true, false, Result, ok, err, panic, has_prefix,
  if◌then◌else◌, ◌&&◌, not,
}
use starrocks_kubernetes_ope.Base.Results.Stateful.{M, ◌>>=◌, ◌>>◌, pure, read}
use starrocks_kubernetes_ope.Kube.{Container, SecurityContext, PodTemplateSpec}
use starrocks_kubernetes_ope.Kube.Client.{Client, Settings}
use starrocks_kubernetes_ope.Api.{
  fe_proxy, fe_proxy_spec, StarRocksFeProxySpec, StarRocksCluster, get_image_pull_policy,
  validate_fe_proxy,
}
use starrocks_kubernetes_ope.K8sutils.Apply.{apply_deployment, apply_service}
use starrocks_kubernetes_ope.K8sutils.Delete.{delete_deployment, delete_service, delete_config_map}
use starrocks_kubernetes_ope.K8sutils.Equality.{service_deep_equal}
use starrocks_kubernetes_ope.K8sutils.Services.{build_external_service}
use starrocks_kubernetes_ope.Templates.Mounts.{Mounts, mount_storage_volumes, mount_config_maps}
use starrocks_kubernetes_ope.Templates.Names.{
  load_name, load_labels, load_selector, external_service_name, new_from_cluster,
}
use starrocks_kubernetes_ope.Templates.Pods.{labels_of_pods, container_ports, make_pod_spec}
use starrocks_kubernetes_ope.Templates.Probes.{liveness_probe, readiness_probe}
use starrocks_kubernetes_ope.Templates.Workloads.{make_deployment}
use starrocks_kubernetes_ope.Controllers.Cluster.{Local, on_world}
use starrocks_kubernetes_ope.Subcontrollers.Fe.Checks.{check_fe_ready}
use starrocks_kubernetes_ope.Subcontrollers.FeProxy.ConfigMaps.{sync_config_map}
use text.Mathlib.Text.{◌==◌}

-- The user of nginx, which may write to its root file system.
abbrev nginx_context : SecurityContext
nginx_context = record {
  run_as_user = some (pos 101);
  run_as_group = some (pos 101);
  run_as_non_root = some true;
  allow_privilege_escalation = some false;
  read_only_root_filesystem = some false;
  capabilities = none;
}

nginx_image : String → String
unfolding has_prefix
nginx_image image =
    if not (image == "") && not (has_prefix image ":") then image else "nginx:1.24.0"

unfoldable nginx_container : StarRocksFeProxySpec → Mounts → Container
unfolding nginx_image container_ports get_image_pull_policy liveness_probe readiness_probe
nginx_container spec m = record {
  name = "nginx";
  image = nginx_image spec.image;
  command = none;
  args = none;
  working_dir = "";
  ports = container_ports fe_proxy [];
  env = [];
  resources = spec.resources;
  volume_mounts = m.mounts;
  image_pull_policy = get_image_pull_policy (fe_proxy_spec spec);
  startup_probe = none;
  liveness_probe = liveness_probe spec.liveness_probe_failure_seconds (pos 8080) "/nginx/health";
  readiness_probe = readiness_probe spec.readiness_probe_failure_seconds (pos 8080) "/nginx/health";
  lifecycle = none;
  security_context = some nginx_context;
}

module _ (c : Client) (settings : Settings) where
  proxy_mounts : (name : String) → StarRocksFeProxySpec → Mounts
  unfolding mount_config_maps mount_storage_volumes load_name
  proxy_mounts name spec =
      mount_config_maps c settings (some (fe_proxy_spec spec))
        (mount_storage_volumes spec.storage_volumes)
        (record { name = load_name name fe_proxy; mount_path = "/etc/nginx"; sub_path = "" } ∷ [])

  -- buildPodTemplate
  unfoldable pub proxy_pod_template : (name : String) → StarRocksFeProxySpec → PodTemplateSpec
  unfolding proxy_mounts nginx_container make_pod_spec labels_of_pods
  proxy_pod_template name spec =
      let m = proxy_mounts name spec in
      record {
        name = "";
        namespace = "";
        labels = labels_of_pods name fe_proxy spec.pod_labels;
        annotations = spec.annotations;
        spec = make_pod_spec (fe_proxy_spec spec) (nginx_container spec m) m.volumes;
      }

  -- What SyncCluster deploys once the FE is ready.
  unfoldable pub proxy_deploy : StarRocksCluster → StarRocksFeProxySpec → M c.World (Unit {0})
  unfolding validate_fe_proxy sync_config_map make_deployment proxy_pod_template apply_deployment
      apply_service build_external_service new_from_cluster load_selector load_labels
      service_deep_equal
  proxy_deploy src spec = do
    read (λ _. validate_fe_proxy spec)
    sync_config_map c settings src spec
    apply_deployment c
        (make_deployment src (fe_proxy_spec spec) (proxy_pod_template src.meta.name spec))
    apply_service c
        (build_external_service c (new_from_cluster src) fe_proxy spec.service []
          (load_selector src.meta.name fe_proxy) (load_labels src.meta.name fe_proxy))
        (service_deep_equal c)

  unfoldable pub proxy_sync_spec : StarRocksCluster → StarRocksFeProxySpec → M c.World (Unit {0})
  unfolding check_fe_ready proxy_deploy
  proxy_sync_spec src spec = do
    ready ← read (λ w. ok (check_fe_ready c src.meta.namespace src.meta.name w))
    if ready then proxy_deploy src spec else pure tt

  -- ClearCluster
  unfoldable pub proxy_clear_cluster : StarRocksCluster → M c.World (Unit {0})
  unfolding load_name external_service_name delete_deployment delete_service delete_config_map
  proxy_clear_cluster src = elim src.spec.fe_proxy_spec [
    | some _ ↦ pure tt
    | none ↦
        delete_deployment c src.meta.namespace (load_name src.meta.name fe_proxy)
        >> (delete_service c src.meta.namespace (external_service_name src.meta.name fe_proxy)
            >> delete_config_map c src.meta.namespace (load_name src.meta.name fe_proxy))
  ]

  -- SyncCluster
  unfoldable pub proxy_sync_cluster : M (Local c.World) (Unit {0})
  unfolding proxy_clear_cluster proxy_sync_spec
  proxy_sync_cluster l = elim l.src.spec.fe_proxy_spec [
    | none ↦ on_world (proxy_clear_cluster l.src) l
    | some spec ↦ on_world (proxy_sync_spec l.src spec) l
  ]
