-- ===== src/Api/Resources.antt =====
-- The custom resources StarRocksCluster and StarRocksWarehouse and their status:
-- pkg/apis/starrocks/v1/starrockscluster_types.go, starrockswarehouse_types.go, component_type.go.
use starrocks_kubernetes_ope.Base.{String, ℤ, pos, Option, List, Bool}
use starrocks_kubernetes_ope.Kube.{ObjectMeta, EnvVar}
use starrocks_kubernetes_ope.Api.AutoScale.{AutoScalerVersion, AutoScalingPolicy}
use starrocks_kubernetes_ope.Api.Specs.{
  StarRocksComponentSpec, StarRocksFeSpec, StarRocksBeSpec, StarRocksCnSpec, StarRocksFeProxySpec,
}

-- `phase_unset` is the empty text.
pub data Phase : Type 0 where
  phase_unset cluster_running cluster_failed cluster_reconciling : Phase

-- The three phases that are declared; the type of the source takes any text.
pub data ComponentPhase : Type 0 where
  component_reconciling component_failed component_running : ComponentPhase

pub record StarRocksComponentStatus : Type 0 where
  pub service_name : String
  pub failed_instances : List String
  pub creating_instances : List String
  pub running_instances : List String
  pub resource_names : List String
  pub phase : ComponentPhase
  pub reason : String

pub record HorizontalScaler : Type 0 where
  pub name : String
  pub version : AutoScalerVersion

pub record StarRocksCnStatus : Type 0 where
  pub component : StarRocksComponentStatus
  pub hpa_name : String
  pub horizontal_scaler : HorizontalScaler
  pub replicas : ℤ
  pub selector : String

pub record DisasterRecovery : Type 0 where
  pub enabled : Bool
  pub generation : ℤ

-- `dr_other` is any text but the three that the program writes.
pub data DrPhase : Type 0 where
  dr_todo dr_doing dr_done : DrPhase
  dr_other : String → DrPhase

pub record DisasterRecoveryStatus : Type 0 where
  pub phase : DrPhase
  pub reason : String
  pub start_timestamp : ℤ
  pub end_timestamp : ℤ
  pub observed_generation : ℤ

-- NewDisasterRecoveryStatus, at the time `now`
unfoldable pub new_disaster_recovery_status : (generation now : ℤ) → DisasterRecoveryStatus
new_disaster_recovery_status generation now = record {
  phase = dr_todo;
  reason = "";
  start_timestamp = now;
  end_timestamp = pos 0;
  observed_generation = generation;
}

pub record StarRocksClusterSpec : Type 0 where
  pub fe_spec : Option StarRocksFeSpec
  pub be_spec : Option StarRocksBeSpec
  pub cn_spec : Option StarRocksCnSpec
  pub fe_proxy_spec : Option StarRocksFeProxySpec
  pub disaster_recovery : Option DisasterRecovery
  pub wait_for_full_rollout : Bool

pub record StarRocksClusterStatus : Type 0 where
  pub phase : Phase
  pub reason : String
  pub fe_status : Option StarRocksComponentStatus
  pub be_status : Option StarRocksComponentStatus
  pub cn_status : Option StarRocksCnStatus
  pub fe_proxy_status : Option StarRocksComponentStatus
  pub disaster_recovery_status : Option DisasterRecoveryStatus

pub record StarRocksCluster : Type 0 where
  pub api_version : String
  pub kind : String
  pub meta : ObjectMeta
  pub spec : StarRocksClusterSpec
  pub status : StarRocksClusterStatus

pub record WarehouseComponentSpec : Type 0 where
  pub component : StarRocksComponentSpec
  pub env_vars : List EnvVar
  pub auto_scaling_policy : Option AutoScalingPolicy

-- ToCnSpec
unfoldable pub to_cn_spec : WarehouseComponentSpec → StarRocksCnSpec
to_cn_spec w = record {
  component = w.component;
  cn_env_vars = w.env_vars;
  auto_scaling_policy = w.auto_scaling_policy;
}

pub record StarRocksWarehouse : Type 0 where
  pub api_version : String
  pub kind : String
  pub meta : ObjectMeta
  pub starrocks_cluster : String
  pub template : Option WarehouseComponentSpec
  pub status : Option StarRocksCnStatus
