-- ===== src/Api/Specs.antt =====
-- The component specifications: pkg/apis/starrocks/v1/load_type.go and component_type.go.
use starrocks_kubernetes_ope.Base.{String, ℤ, Option, List, Dict, Bool}
use starrocks_kubernetes_ope.Kube.{
  Raw, Container, EnvVar, Lifecycle, UpdateStrategy, RetentionPolicy,
}
use starrocks_kubernetes_ope.Api.Services.{StarRocksService}
use starrocks_kubernetes_ope.Api.Volumes.{StorageVolume}
use starrocks_kubernetes_ope.Api.AutoScale.{AutoScalingPolicy}

pub record ConfigMapInfo : Type 0 where
  pub config_map_name : String
  pub resolve_key : String

-- MountInfo, ConfigMapReference and SecretReference
pub record MountInfo : Type 0 where
  pub name : String
  pub mount_path : String
  pub sub_path : String

pub record StarRocksLoadSpec : Type 0 where
  pub resources : Raw
  pub annotations : Dict String
  pub pod_labels : Dict String
  pub replicas : Option ℤ
  pub image : String
  pub image_pull_policy : String
  pub image_pull_secrets : List String
  pub scheduler_name : String
  pub node_selector : Dict String
  pub affinity : Option Raw
  pub tolerations : List Raw
  pub topology_spread_constraints : List Raw
  pub service : Option StarRocksService
  pub storage_volumes : List StorageVolume
  pub service_account : String
  pub config_map_info : ConfigMapInfo
  pub startup_probe_failure_seconds : Option ℤ
  pub liveness_probe_failure_seconds : Option ℤ
  pub readiness_probe_failure_seconds : Option ℤ
  pub lifecycle : Option Lifecycle
  pub share_process_namespace : Option Bool

pub record StarRocksComponentSpec : Type 0 where
  pub load : StarRocksLoadSpec
  pub open load use *
  pub run_as_non_root : Option Bool
  pub capabilities : Option Raw
  pub config_maps : List MountInfo
  pub secrets : List MountInfo
  pub host_aliases : List Raw
  pub termination_grace_period_seconds : Option ℤ
  pub sidecars : List Container
  pub init_containers : List Container
  pub command : Option (List String)
  pub args : Option (List String)
  pub update_strategy : Option UpdateStrategy
  pub read_only_root_filesystem : Option Bool
  pub sysctls : List Raw
  pub retention_policy : Option RetentionPolicy
  pub min_ready_seconds : Option ℤ
  pub pod_management_policy : String

pub record StarRocksFeSpec : Type 0 where
  pub component : StarRocksComponentSpec
  pub open component use *
  pub fe_env_vars : List EnvVar

pub record StarRocksBeSpec : Type 0 where
  pub component : StarRocksComponentSpec
  pub open component use *
  pub be_env_vars : List EnvVar

pub record StarRocksCnSpec : Type 0 where
  pub component : StarRocksComponentSpec
  pub open component use *
  pub cn_env_vars : List EnvVar
  pub auto_scaling_policy : Option AutoScalingPolicy

pub record StarRocksFeProxySpec : Type 0 where
  pub load : StarRocksLoadSpec
  pub open load use *
  pub resolver : String

-- The dynamic type of a SpecInterface, on which the type switches of the program branch; it is
-- known of a nil pointer too.
pub data SpecKind : Type 0 where
  fe be cn fe_proxy : SpecKind

-- A SpecInterface that holds no nil pointer.
pub data Spec : Type 0 where
  fe_spec : StarRocksFeSpec → Spec
  be_spec : StarRocksBeSpec → Spec
  cn_spec : StarRocksCnSpec → Spec
  fe_proxy_spec : StarRocksFeProxySpec → Spec

abbrev pub kind_of : Spec → SpecKind
kind_of (fe_spec s) = fe
kind_of (be_spec s) = be
kind_of (cn_spec s) = cn
kind_of (fe_proxy_spec s) = fe_proxy
