-- ===== src/Kube/Pods.antt =====
-- corev1: containers, volumes and pods.
use starrocks_kubernetes_ope.Base.{String, ℤ, Option, List, Dict, Bool}
use starrocks_kubernetes_ope.Kube.Meta.{Raw, ObjectMeta}

-- The sources of an environment variable's value that the program reads; a field reference and
-- every other source is `other_source`.
pub data EnvVarSource : Type 0 where
  config_map_key : (name key : String) → EnvVarSource
  secret_key : (name key : String) → EnvVarSource
  other_source : Raw → EnvVarSource

pub record EnvVar : Type 0 where
  pub name : String
  pub value : String
  pub value_from : Option EnvVarSource

pub record HostPathVolumeSource : Type 0 where
  pub path : String
  pub type : Option String

pub record CsiVolumeSource : Type 0 where
  pub driver : String
  pub rest : Raw

pub data VolumeSource : Type 0 where
  persistent_volume_claim : (claim_name : String) → VolumeSource
  empty_dir : VolumeSource
  host_path : Option HostPathVolumeSource → VolumeSource
  csi : Option CsiVolumeSource → VolumeSource
  config_map : (name : String) (default_mode : Option ℤ) → VolumeSource
  secret : (secret_name : String) → VolumeSource

pub record Volume : Type 0 where
  pub name : String
  pub source : VolumeSource

pub record VolumeMount : Type 0 where
  pub name : String
  pub mount_path : String
  pub sub_path : String
  pub read_only : Bool

pub record ContainerPort : Type 0 where
  pub name : String
  pub container_port : ℤ
  pub protocol : String

pub data ProbeHandler : Type 0 where
  http_get : (path : String) (port : ℤ) → ProbeHandler
  tcp_socket : (port : ℤ) → ProbeHandler

pub record Probe : Type 0 where
  pub handler : ProbeHandler
  pub initial_delay_seconds : ℤ
  pub timeout_seconds : ℤ
  pub period_seconds : ℤ
  pub success_threshold : ℤ
  pub failure_threshold : ℤ

pub data LifecycleHandler : Type 0 where
  exec : List String → LifecycleHandler
  other_handler : Raw → LifecycleHandler

pub record Lifecycle : Type 0 where
  pub post_start : Option LifecycleHandler
  pub pre_stop : Option LifecycleHandler

pub record SecurityContext : Type 0 where
  pub run_as_user : Option ℤ
  pub run_as_group : Option ℤ
  pub run_as_non_root : Option Bool
  pub allow_privilege_escalation : Option Bool
  pub read_only_root_filesystem : Option Bool
  pub capabilities : Option Raw

pub record Container : Type 0 where
  pub name : String
  pub image : String
  pub command : Option (List String)
  pub args : Option (List String)
  pub working_dir : String
  pub ports : List ContainerPort
  pub env : List EnvVar
  pub resources : Raw
  pub volume_mounts : List VolumeMount
  pub image_pull_policy : String
  pub startup_probe : Option Probe
  pub liveness_probe : Option Probe
  pub readiness_probe : Option Probe
  pub lifecycle : Option Lifecycle
  pub security_context : Option SecurityContext

pub record PodSecurityContext : Type 0 where
  pub fs_group : Option ℤ
  pub fs_group_change_policy : Option String
  pub sysctls : List Raw

pub record PodSpec : Type 0 where
  pub init_containers : List Container
  pub containers : List Container
  pub volumes : List Volume
  pub service_account_name : String
  pub termination_grace_period_seconds : Option ℤ
  pub affinity : Option Raw
  pub topology_spread_constraints : List Raw
  pub tolerations : List Raw
  pub image_pull_secrets : List String
  pub node_selector : Dict String
  pub host_aliases : List Raw
  pub scheduler_name : String
  pub automount_service_account_token : Option Bool
  pub share_process_namespace : Option Bool
  pub security_context : Option PodSecurityContext

pub record PodTemplateSpec : Type 0 where
  pub name : String
  pub namespace : String
  pub labels : Dict String
  pub annotations : Dict String
  pub spec : PodSpec

pub data PodPhase : Type 0 where
  pod_pending pod_running pod_succeeded pod_failed pod_unknown : PodPhase

pub record ContainerStatus : Type 0 where
  pub name : String
  pub ready : Bool

-- The API server sends no empty list of container statuses: nil and empty are one.
pub record PodStatus : Type 0 where
  pub phase : PodPhase
  pub reason : String
  pub container_statuses : List ContainerStatus

pub record Pod : Type 0 where
  pub meta : ObjectMeta
  pub containers : List Container
  pub status : PodStatus
