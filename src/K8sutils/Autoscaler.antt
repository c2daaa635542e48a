-- ===== src/K8sutils/Autoscaler.antt =====
-- The HorizontalPodAutoscaler of a policy: BuildHPA of pkg/common/resource_utils/autoscaler.go.
-- The version of the object stands for its Go type and for the API version of its TypeMeta. The
-- conversions by unsafe.Pointer are between types with the same fields.
use starrocks_kubernetes_ope.Base.{String, pos, Option, none, some, List, [], ◌∷◌, Dict}
use starrocks_kubernetes_ope.Kube.{
  Raw, OwnerReference, HpaVersion, hpa_v1, hpa_v2, hpa_v2beta2, HorizontalPodAutoscaler,
}
use starrocks_kubernetes_ope.Kube.Client.{Settings}
use starrocks_kubernetes_ope.Api.{
  AutoScalerVersion, version_unset, auto_scaler_v1, auto_scaler_v2, AutoScalingPolicy, HpaPolicy,
  complete_version,
}

-- HPAParams, with its one owner and its policy, which are always given
pub record HpaParams : Type 0 where
  pub version : AutoScalerVersion
  pub name : String
  pub namespace : String
  pub labels : Dict String
  pub owner : OwnerReference
  pub policy : AutoScalingPolicy

metrics_of : Option HpaPolicy → List Raw
metrics_of none = []
metrics_of (some policy) = policy.metrics

behavior_of : Option HpaPolicy → Option Raw
behavior_of none = none
behavior_of (some policy) = policy.behavior

-- The parts that every version has.
abbrev plain_hpa : HpaParams → HpaVersion → HorizontalPodAutoscaler
plain_hpa params version = record {
  version = version;
  meta = record {
    name = params.name;
    namespace = params.namespace;
    uid = "";
    labels = params.labels;
    annotations = none;
    finalizers = none;
    owner_references = params.owner ∷ [];
    resource_version = "";
    generation = pos 0;
    deletion_timestamp = none;
  };
  target = (params.owner.name, params.owner.kind, params.owner.api_version);
  min_replicas = params.policy.min_replicas;
  max_replicas = params.policy.max_replicas;
  metrics = [];
  behavior = none;
}

-- Version 1 has no metrics and no behavior.
with_policy : Option HpaPolicy → HorizontalPodAutoscaler → HorizontalPodAutoscaler
unfolding metrics_of behavior_of
with_policy policy hpa = record hpa { metrics = metrics_of policy; behavior = behavior_of policy }

build_version : HpaParams → AutoScalerVersion → HorizontalPodAutoscaler
unfolding with_policy
build_version params auto_scaler_v1 = plain_hpa params hpa_v1
build_version params auto_scaler_v2 = with_policy params.policy.hpa_policy (plain_hpa params hpa_v2)
build_version params _ = with_policy params.policy.hpa_policy (plain_hpa params hpa_v2beta2)

abbrev version_or : AutoScalerVersion → AutoScalerVersion → AutoScalerVersion
version_or version_unset other = other
version_or version other = version

-- BuildHPA
unfoldable pub build_hpa : Settings → HpaParams → AutoScalerVersion → HorizontalPodAutoscaler
unfolding build_version complete_version
build_hpa settings params version = build_version params (
    version_or version
      (complete_version params.version settings.kube_major_version settings.kube_minor_version))
