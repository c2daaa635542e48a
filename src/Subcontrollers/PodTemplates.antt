-- ===== src/Subcontrollers/PodTemplates.antt =====
-- buildPodTemplate of the FE, BE and CN sub-controllers:
-- pkg/subcontrollers/{fe/fe_pod.go,be/be_pod.go,cn/cn_pod.go}. What the three have in common is
-- written once: the log directory, the references, the main container and the template round it.
pub mod QueryPort
pub mod Laws
pub mod Built
use starrocks_kubernetes_ope.Base.{
  String, ℤ, Option, none, some, List, [], ◌∷◌, ◌++◌, Dict, Bool, true, false, Result, ok, err,
  panic, sentinel, err_failed_to_get_fe_feature_list, eqz, pos, any, format_int, if◌then◌else◌,
  ◌<>◌, ◌&&◌, ◌||◌, not,
}
use starrocks_kubernetes_ope.Base.Results.Fallible.{◌>>=◌, ◌>>◌}
use starrocks_kubernetes_ope.Kube.{
  Container, EnvVar, Probe, PodSpec, PodTemplateSpec, VolumeMount, empty_dir,
}
use starrocks_kubernetes_ope.Kube.Client.{Client, Settings}
use starrocks_kubernetes_ope.Api.{
  SpecKind, fe, be, cn, Spec, fe_spec, be_spec, cn_spec, kind_of, load_of, StarRocksFeSpec,
  StarRocksBeSpec, StarRocksCnSpec, StarRocksComponentSpec, MountInfo, ConfigMapInfo,
  get_image_pull_policy,
}
use starrocks_kubernetes_ope.K8sutils.Config.Ports.{get_port, http_port, webserver_port}
use starrocks_kubernetes_ope.K8sutils.Volumes.{has_volume, has_mount_path, check_volumes}
use starrocks_kubernetes_ope.Templates.Names.{
  StarRocksObject, ObjectKind, cluster_kind, warehouse_kind, default_name, external_service_name,
  warehouse_name_in_fe,
}
use starrocks_kubernetes_ope.Templates.Mounts.{
  Mounts, add_volume, mount_storage_volumes, mount_config_map_info, mount_config_maps,
  mount_secrets,
}
use starrocks_kubernetes_ope.Templates.Probes.{startup_probe, liveness_probe, readiness_probe}
use starrocks_kubernetes_ope.Templates.Pods.{
  life_cycle, labels_of_pods, annotations_of_pods, container_ports, make_pod_spec,
  default_root_path, root_path, storage_dir, log_dir, pre_stop_command, container_command,
  container_args,
}
use starrocks_kubernetes_ope.Templates.Pods.Context.{
  pod_security_context, container_security_context,
}
use starrocks_kubernetes_ope.Templates.Pods.Envs.{make_envs, plain_env}
use text.Mathlib.Text.{◌==◌}

-- The two tests before an empty directory is mounted, and the mount.
unfoldable mount_default : (names : List String) (name dir : String) → Mounts → Mounts
unfolding has_volume has_mount_path add_volume
mount_default names name dir m =
    if not (any (has_volume m.volumes) names) && not (has_mount_path m.mounts dir)
    then add_volume m empty_dir name dir ""
    else m

module _ (c : Client) (settings : Settings) where
  -- The mounts of config maps and secrets, and the check of all of them.
  unfoldable checked_mounts :
      Spec → StarRocksComponentSpec → (config_path : String) → Mounts → Result Mounts
  unfolding mount_config_map_info mount_config_maps mount_secrets check_volumes
  checked_mounts spec component config_path m =
      let all =
        mount_secrets c settings
          (mount_config_maps c settings (some spec)
            (mount_config_map_info m component.config_map_info config_path) component.config_maps)
          component.secrets in
      check_volumes all.volumes all.mounts >> ok all

  -- The volumes and mounts of an FE: the metadata and the logs have a default.
  unfoldable pub fe_mounts : StarRocksFeSpec → Result Mounts
  unfolding mount_storage_volumes mount_default storage_dir log_dir checked_mounts
  fe_mounts spec = checked_mounts (fe_spec spec) spec.component "/etc/starrocks/fe/conf" (
      mount_default ("fe-log" ∷ []) "fe-log" (log_dir (fe_spec spec)) (
        mount_default ("fe-meta" ∷ []) "fe-meta" (storage_dir (fe_spec spec))
          (mount_storage_volumes spec.storage_volumes)))

  -- Those of a BE: the storage, of either name, and the logs have a default.
  unfoldable pub be_mounts : StarRocksBeSpec → Result Mounts
  unfolding mount_storage_volumes mount_default storage_dir log_dir checked_mounts
  be_mounts spec = checked_mounts (be_spec spec) spec.component "/etc/starrocks/be/conf" (
      mount_default ("be-log" ∷ []) "be-log" (log_dir (be_spec spec)) (
        mount_default ("be-storage" ∷ "be-data" ∷ []) "be-data" (storage_dir (be_spec spec))
          (mount_storage_volumes spec.storage_volumes)))

  -- Those of a CN: the logs have a default.
  unfoldable pub cn_mounts : StarRocksCnSpec → Result Mounts
  unfolding mount_storage_volumes mount_default log_dir checked_mounts
  cn_mounts spec = checked_mounts (cn_spec spec) spec.component "/etc/starrocks/cn/conf" (
      mount_default ("cn-log" ∷ []) "cn-log" (log_dir (cn_spec spec))
        (mount_storage_volumes spec.storage_volumes))

-- The variable that tells the container where its configuration is mounted.
config_path_env : ConfigMapInfo → (config_path : String) → List EnvVar
config_path_env info config_path =
    if not (info.config_map_name == "") && not (info.resolve_key == "")
    then plain_env "CONFIGMAP_MOUNT_PATH" config_path ∷ []
    else []

-- The main container; its probes ask the health API at a port.
unfoldable pub main_container :
    Spec
    → (config : Dict String) (root config_path : String) (port : ℤ) → List EnvVar
    → List VolumeMount
    → Container
unfolding container_command container_args container_ports get_image_pull_policy startup_probe
    liveness_probe readiness_probe life_cycle pre_stop_command container_security_context
    config_path_env default_name
main_container spec config root config_path port envs mounts = record {
  name = default_name (kind_of spec);
  image = (load_of spec).image;
  command = some (container_command spec);
  args = some (container_args spec);
  working_dir = if not (root == default_root_path) then root else "";
  ports = container_ports (kind_of spec) config;
  env = envs ++ config_path_env (load_of spec).config_map_info config_path;
  resources = (load_of spec).resources;
  volume_mounts = mounts;
  image_pull_policy = get_image_pull_policy spec;
  startup_probe = startup_probe (load_of spec).startup_probe_failure_seconds port "/api/health";
  liveness_probe = liveness_probe (load_of spec).liveness_probe_failure_seconds port "/api/health";
  readiness_probe =
      readiness_probe (load_of spec).readiness_probe_failure_seconds port "/api/health";
  lifecycle = some (life_cycle (load_of spec).lifecycle (pre_stop_command spec));
  security_context = some (container_security_context spec);
}

-- The template round the container.
unfoldable pub template_of :
    Spec → (name namespace prefix : String) → Mounts → Container → PodTemplateSpec
unfolding make_pod_spec annotations_of_pods labels_of_pods pod_security_context
template_of spec name namespace prefix m container = record {
  name = name;
  namespace = namespace;
  labels = labels_of_pods prefix (kind_of spec) (load_of spec).pod_labels;
  annotations = annotations_of_pods spec;
  spec = record (make_pod_spec spec container m.volumes) {
    security_context = some (pod_security_context spec);
  };
}

-- What the FE answers to an HTTP request, and the names of the features in a body that can be
-- decoded: libraries.
pub record Http (W : Type 0) : Type 0 where
  pub get : (url : String) → W → Result (ℤ × String)  -- the status and the body
  pub feature_names : (body : String) → Result (List String)

abbrev named_in : Result (List String) → Bool
named_in (ok names) = any (λ name. name == "multi-warehouse") names
named_in _ = false

abbrev supported_by : {W : Type 0} → Http W → Result (ℤ × String) → Bool
supported_by http (ok (status, body)) = eqz status (pos 200) && named_in (http.feature_names body)
supported_by http _ = false

-- addWarehouseEnv
unfoldable pub add_warehouse_env : {W : Type 0} → Http W → (url : String) → W → Bool
add_warehouse_env http url w = supported_by http (http.get url w)

-- The variable by which the CN's container makes its warehouse.
unfoldable pub warehouse_envs :
    ObjectKind → (supported : Bool) (warehouse_name : String) → Result (List EnvVar)
unfolding warehouse_name_in_fe
warehouse_envs cluster_kind supported name = ok []
warehouse_envs warehouse_kind true name =
    ok (plain_env "KUBE_STARROCKS_MULTI_WAREHOUSE" (warehouse_name_in_fe name) ∷ [])
warehouse_envs warehouse_kind false name = err (sentinel err_failed_to_get_fe_feature_list)

module _ (c : Client) (settings : Settings) where
  -- buildPodTemplate of the FE
  unfoldable pub fe_pod_template :
      (namespace name : String) → StarRocksFeSpec → (config : Dict String) → Result PodTemplateSpec
  unfolding fe_mounts external_service_name make_envs get_port root_path main_container template_of
      default_name
  fe_pod_template namespace name spec config = do
    m ← fe_mounts c settings spec
    ok (
        template_of (fe_spec spec) (name <> "-" <> default_name fe) namespace name m (
          main_container (fe_spec spec) config (root_path spec.fe_env_vars) "/etc/starrocks/fe/conf"
            (get_port config http_port)
            (make_envs settings.unsupported_envs fe config (external_service_name name fe) namespace
              spec.fe_env_vars)
            m.mounts))

  -- buildPodTemplate of the BE
  unfoldable pub be_pod_template :
      (namespace name : String) → StarRocksBeSpec → (config : Dict String) → Result PodTemplateSpec
  unfolding be_mounts external_service_name make_envs get_port root_path main_container template_of
      default_name
  be_pod_template namespace name spec config = do
    m ← be_mounts c settings spec
    ok (
        template_of (be_spec spec) (name <> "-" <> default_name be) namespace name m (
          main_container (be_spec spec) config (root_path spec.be_env_vars) "/etc/starrocks/be/conf"
            (get_port config webserver_port)
            (make_envs settings.unsupported_envs be config (external_service_name name fe) namespace
              spec.be_env_vars)
            m.mounts))

  -- Where the FE lists its features.
  feature_url : StarRocksObject → (config : Dict String) → String
  unfolding external_service_name get_port format_int
  feature_url object config =
      "http://"
      <> external_service_name object.cluster_name fe
      <> "."
      <> object.meta.namespace
      <> ":"
      <> format_int (get_port config http_port)
      <> "/api/v2/feature"

  -- buildPodTemplate of the CN, where the field addEnvForWarehouse is false, as New leaves it
  unfoldable pub cn_pod_template :
      Http c.World
      → StarRocksObject
      → StarRocksCnSpec
      → (config : Dict String) → c.World
      → Result PodTemplateSpec
  unfolding cn_mounts external_service_name make_envs get_port root_path main_container template_of
      warehouse_envs add_warehouse_env feature_url
  cn_pod_template http object spec config w = do
    m ← cn_mounts c settings spec
    warehouse ←
        warehouse_envs object.kind (add_warehouse_env http (feature_url object config) w)
          object.meta.name
    ok (
        template_of (cn_spec spec) "" object.meta.namespace object.sub_resource_prefix_name m (
          main_container (cn_spec spec) config (root_path spec.cn_env_vars) "/etc/starrocks/cn/conf"
            (get_port config webserver_port)
            (make_envs settings.unsupported_envs cn config
                (external_service_name object.cluster_name fe) object.meta.namespace
                spec.cn_env_vars
              ++ warehouse)
            m.mounts))
