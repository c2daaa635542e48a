-- ===== src/Api/Getters.antt =====
-- The getters of SpecInterface with their defaults, and ValidUpdateStrategy:
-- pkg/apis/starrocks/v1/component_type.go, load_type.go and starrockscluster_types.go.
use starrocks_kubernetes_ope.Base.{
  String, ℤ, pos, Option, none, some, List, [], ◌∷◌, Bool, true, false, Result, ok, err, failure,
  has_prefix, if◌then◌else◌, ◌||◌,
}
use starrocks_kubernetes_ope.Kube.{Raw, Container, UpdateStrategy, RollingUpdate}
use starrocks_kubernetes_ope.Api.Specs.{
  StarRocksLoadSpec, StarRocksComponentSpec, StarRocksFeProxySpec, Spec, fe_spec, be_spec, cn_spec,
  fe_proxy_spec,
}
use starrocks_kubernetes_ope.Api.Services.{validate_service}
use starrocks_kubernetes_ope.Api.Volumes.{StorageVolume, validate_volume}
use starrocks_kubernetes_ope.Base.Results.Fallible.{◌>>◌}
use text.Mathlib.Text.{◌==◌}

-- The embedded StarRocksLoadSpec.
abbrev pub load_of : Spec → StarRocksLoadSpec
load_of (fe_spec s) = s.load
load_of (be_spec s) = s.load
load_of (cn_spec s) = s.load
load_of (fe_proxy_spec s) = s.load

-- The embedded StarRocksComponentSpec, which an FE proxy has not.
abbrev pub component_of : Spec → Option StarRocksComponentSpec
component_of (fe_spec s) = some s.component
component_of (be_spec s) = some s.component
component_of (cn_spec s) = some s.component
component_of (fe_proxy_spec s) = none

-- A getter of the component, and what the method of StarRocksFeProxySpec returns in its place.
abbrev of_component : {A : Type 0} → A → (StarRocksComponentSpec → A) → Spec → A
of_component proxy getter s = elim (component_of s) [ none ↦ proxy | some c ↦ getter c ]

unfoldable pub get_replicas : Spec → Option ℤ
get_replicas s = (load_of s).replicas

unfoldable pub get_image_pull_policy : Spec → String
get_image_pull_policy s =
    let policy = (load_of s).image_pull_policy in if policy == "" then "IfNotPresent" else policy

unfoldable pub get_host_aliases : Spec → List Raw
get_host_aliases = of_component [] (λ c. c.host_aliases)

abbrev user_and_group : Option Bool → Option ℤ × Option ℤ
user_and_group none = (none, none)
user_and_group (some false) = (none, none)
user_and_group (some true) = (some (pos 1000), some (pos 1000))

unfoldable pub get_run_as_non_root : Spec → Option ℤ × Option ℤ
get_run_as_non_root = of_component (none, none) (λ c. user_and_group c.run_as_non_root)

abbrev or_default : {A : Type 0} → A → Option A → Option A
or_default d none = some d
or_default d (some a) = some a

unfoldable pub get_termination_grace_period_seconds : Spec → Option ℤ
get_termination_grace_period_seconds =
    of_component none (λ c. or_default (pos 120) c.termination_grace_period_seconds)

unfoldable pub get_capabilities : Spec → Option Raw
get_capabilities = of_component none (λ c. c.capabilities)

unfoldable pub get_sidecars : Spec → List Container
get_sidecars = of_component [] (λ c. c.sidecars)

unfoldable pub get_init_containers : Spec → List Container
get_init_containers = of_component [] (λ c. c.init_containers)

unfoldable pub get_command : Spec → Option (List String)
get_command = of_component none (λ c. c.command)

unfoldable pub get_args : Spec → Option (List String)
get_args = of_component none (λ c. c.args)

unfoldable pub get_sysctls : Spec → List Raw
get_sysctls = of_component [] (λ c. c.sysctls)

unfoldable pub is_read_only_root_filesystem : Spec → Option Bool
is_read_only_root_filesystem = of_component none (λ c. or_default false c.read_only_root_filesystem)

unfoldable pub get_min_ready_seconds : Spec → Option ℤ
get_min_ready_seconds = of_component none (λ c. c.min_ready_seconds)

abbrev parallel_unless_set : String → String
parallel_unless_set policy = if policy == "" then "Parallel" else policy

unfoldable pub get_pod_management_policy : Spec → String
get_pod_management_policy = of_component "" (λ c. parallel_unless_set c.pod_management_policy)

abbrev pub default_update_strategy : UpdateStrategy
default_update_strategy = record {
  type = "RollingUpdate";
  rolling_update = some (record { partition = some (pos 0); max_unavailable = none });
}

-- `none` is the nil pointer of an FE proxy.
unfoldable pub get_update_strategy : Spec → Option UpdateStrategy
get_update_strategy = of_component none (λ c. or_default default_update_strategy c.update_strategy)

valid_max_unavailable : Option String → Result (Unit {0})
unfolding has_prefix
valid_max_unavailable none = ok tt
valid_max_unavailable (some s) =
    if has_prefix s "0" then err (failure "maxUnavailable field should > 0") else ok tt

valid_rolling_update : String → Option RollingUpdate → Result (Unit {0})
unfolding valid_max_unavailable
valid_rolling_update type none = ok tt
valid_rolling_update type (some rolling) =
    if type == "" || type == "RollingUpdate"
    then valid_max_unavailable rolling.max_unavailable
    else ok tt

-- ValidUpdateStrategy
unfoldable pub valid_update_strategy : Option UpdateStrategy → Result (Unit {0})
unfolding valid_rolling_update
valid_update_strategy none = ok tt
valid_update_strategy (some strategy) = valid_rolling_update strategy.type strategy.rolling_update

-- The loop over StorageVolumes of every sub-controller's `validating`.
unfoldable pub validate_volumes : List StorageVolume → Result (Unit {0})
unfolding validate_volume
validate_volumes [] = ok tt
validate_volumes (v ∷ vs) = do validate_volume v; validate_volumes vs

-- `Validating` of the FE sub-controller and `validating` of the BE's
unfoldable pub validate_component : StarRocksComponentSpec → Result (Unit {0})
unfolding validate_volumes valid_update_strategy validate_service
validate_component c = do
  validate_volumes c.storage_volumes
  valid_update_strategy c.update_strategy
  validate_service c.service

-- `validating` of the FE proxy's
unfoldable pub validate_fe_proxy : StarRocksFeProxySpec → Result (Unit {0})
unfolding validate_volumes validate_service
validate_fe_proxy s = do validate_volumes s.storage_volumes; validate_service s.service
