-- ===== src/Api/Services.antt =====
-- StarRocksService, its ports and its validation: pkg/apis/starrocks/v1/load_type.go.
use starrocks_kubernetes_ope.Base.{
  String, ℤ, Option, none, some, List, Dict, Bool, Result, ok, err, failure, if◌then◌else◌, ◌<>◌,
  ◌||◌, not,
}
use text.Mathlib.Text.{◌==◌}

pub record StarRocksServicePort : Type 0 where
  pub name : String
  pub port : ℤ
  pub container_port : ℤ
  pub node_port : ℤ

pub record StarRocksService : Type 0 where
  pub annotations : Option (Dict String)
  pub labels : Option (Dict String)
  pub type : String
  pub load_balancer_ip : String
  pub ports : Option (List StarRocksServicePort)
  pub load_balancer_source_ranges : Option (List String)
  pub external_traffic_policy : String

abbrev pub type_or_cluster_ip : String → String
type_or_cluster_ip type = if type == "" then "ClusterIP" else type

abbrev pub takes_traffic_policy : String → Bool
takes_traffic_policy type = type == "NodePort" || type == "LoadBalancer"

-- (svc *StarRocksService) Validate
unfoldable pub validate_service : Option StarRocksService → Result (Unit {0})
validate_service none = ok tt
validate_service (some svc) =
    let type = type_or_cluster_ip svc.type in
    if not (svc.external_traffic_policy == "")
    then if not (takes_traffic_policy type)
      then err (
          failure (
            "service: externalTrafficPolicy " <> svc.external_traffic_policy
            <> " may only be set when the service type is NodePort or LoadBalancer, but the type is "
            <> type))
      else ok tt
    else ok tt
