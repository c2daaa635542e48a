-- ===== src/Subcontrollers/Fe/Config.antt =====
-- The configuration of the FE: GetFEConfig of pkg/subcontrollers/fe/feconfig.go, and what the other
-- sub-controllers do before they go on: the wait for the FE at the start of SyncCluster of the BE's
-- and the CN's.
pub mod Laws
use starrocks_kubernetes_ope.Base.{
  String, Option, none, some, Dict, Bool, Result, panic, if◌then◌else◌,
}
use starrocks_kubernetes_ope.Kube.Client.{Client}
use starrocks_kubernetes_ope.Api.{fe_spec, StarRocksFeSpec, StarRocksCluster}
use starrocks_kubernetes_ope.K8sutils.Config.{get_config}
use starrocks_kubernetes_ope.Templates.Pods.{config_dir}
use starrocks_kubernetes_ope.Subcontrollers.Fe.Checks.{check_fe_ready, check_fe_fully_rolled_out}

module _ (c : Client) where
  -- GetFEConfig, which follows the pointer to the specification
  unfoldable pub get_fe_config :
      (namespace : String) → Option StarRocksFeSpec → c.World → Result (Dict String)
  unfolding get_config config_dir
  get_fe_config namespace none w = panic "nil pointer"
  get_fe_config namespace (some spec) w =
      get_config c w spec.config_map_info spec.config_maps (config_dir (fe_spec spec)) "fe.conf"
        namespace

  -- Whether the sub-controllers of the BE and the CN may go on.
  unfoldable pub may_go_on : StarRocksCluster → c.World → Bool
  unfolding check_fe_ready check_fe_fully_rolled_out
  may_go_on src w =
      if src.spec.wait_for_full_rollout
      then check_fe_fully_rolled_out c src.meta.namespace src.meta.name w
      else check_fe_ready c src.meta.namespace src.meta.name w
