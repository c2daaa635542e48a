-- ===== src/K8sutils/Config.antt =====
-- Reading configuration from config maps, secrets and environment variables:
-- pkg/k8sutils/k8sutils.go, and GetPort of pkg/common/resource_utils/configmap.go. A configuration
-- is a map of texts: viper yields texts for a file of properties without dotted keys.
pub mod Ports
use starrocks_kubernetes_ope.Base.{
  String, Option, none, some, List, [], ◌∷◌, Bool, Dict, lookup, Result, ok, err, panic, failure,
  is_not_found, is_digit, join_path, if◌then◌else◌, ◌<>◌, ◌&&◌, ◌||◌, not,
}
use starrocks_kubernetes_ope.Base.Results.Fallible.{◌>>=◌}
use starrocks_kubernetes_ope.Kube.{
  Key, ConfigMap, EnvVar, EnvVarSource, config_map_key, secret_key, other_source,
}
use starrocks_kubernetes_ope.Kube.Client.{Client}
use starrocks_kubernetes_ope.Api.{ConfigMapInfo, MountInfo}
use text.Mathlib.Text.{◌==◌}

-- The loop of getConfigFromConfigMaps: a reference with a sub path ends it, one without does not.
select_config_map : (mount_path key current : String) → List MountInfo → String
unfolding join_path
select_config_map mount_path key current [] = current
select_config_map mount_path key current (r ∷ rs) =
    let by_directory = if r.mount_path == mount_path then r.name else current in
    let on = if r.sub_path == "" then by_directory else current in
    let rest = select_config_map mount_path key on rs in
    if not (r.sub_path == "") && (r.mount_path == join_path mount_path key && key == r.sub_path)
    then r.name
    else rest

module _ (c : Client) (w : c.World) where
  -- ResolveConfigMap
  unfoldable pub resolve_config_map : ConfigMap → String → Result (Dict String)
  unfolding lookup
  resolve_config_map config_map key = elim (lookup key config_map.contents) [
    | none ↦ ok []
    | some text ↦ c.read_properties text
  ]

  -- Of a config map that is not found the settings are empty.
  resolve_found : Result ConfigMap → String → Result (Dict String)
  unfolding resolve_config_map
  resolve_found (ok config_map) key = resolve_config_map config_map key
  resolve_found (err e) key = if is_not_found e then ok [] else err e
  resolve_found (panic p) key = panic p

  -- GetConfigMap
  unfoldable pub get_config_map : (namespace name : String) → Result ConfigMap
  get_config_map namespace name =
      c.config_maps.get (record { namespace = namespace; name = name }) w

  -- getConfigFromConfigMaps
  unfoldable pub get_config_from_config_maps :
      List MountInfo → (mount_path key namespace : String) → Result (Dict String)
  unfolding select_config_map get_config_map resolve_found
  get_config_from_config_maps references mount_path key namespace =
      let name = select_config_map mount_path key "" references in
      if name == "" then ok [] else resolve_found (get_config_map namespace name) key

  -- GetConfig
  unfoldable pub get_config :
      ConfigMapInfo → List MountInfo → (mount_path key namespace : String) → Result (Dict String)
  unfolding get_config_from_config_maps get_config_map resolve_found
  get_config info references mount_path key namespace =
      if not (info.config_map_name == "") || not (info.resolve_key == "")
      then if info.config_map_name == "" || info.resolve_key == ""
        then ok []
        else resolve_found (get_config_map namespace info.config_map_name) info.resolve_key
      else get_config_from_config_maps references mount_path key namespace

  value_or : String → Option String → Result String
  value_or text none = err (failure text)
  value_or text (some value) = ok value

  -- GetValueFromConfigmap
  unfoldable pub get_value_from_config_map : (namespace name key : String) → Result String
  unfolding value_or lookup
  get_value_from_config_map namespace name key = do
    config_map ← c.config_maps.get (record { namespace = namespace; name = name }) w
    value_or ("key " <> key <> " not found in configmap " <> name) (lookup key config_map.contents)

  -- GetValueFromSecret
  unfoldable pub get_value_from_secret : (namespace name key : String) → Result String
  unfolding value_or lookup
  get_value_from_secret namespace name key = do
    secret ← c.get_secret (record { namespace = namespace; name = name }) w
    value_or ("key " <> key <> " not found in secret " <> name) (lookup key secret)

  get_value_from : (namespace : String) → Option EnvVarSource → Result String
  unfolding get_value_from_config_map get_value_from_secret
  get_value_from namespace (some (config_map_key name key)) =
      get_value_from_config_map namespace name key
  get_value_from namespace (some (secret_key name key)) = get_value_from_secret namespace name key
  get_value_from namespace _ = err (failure "invalid environment variable")

  -- GetEnvVarValue
  unfoldable pub get_env_var_value : (namespace : String) → EnvVar → Result String
  unfolding get_value_from
  get_env_var_value namespace env =
      if not (env.value == "") then ok env.value else get_value_from namespace env.value_from
