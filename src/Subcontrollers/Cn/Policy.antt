-- ===== src/Subcontrollers/Cn/Policy.antt =====
-- The validation of a CN's specification: `validating` of pkg/subcontrollers/cn/cn_controller.go.
pub mod Laws
use starrocks_kubernetes_ope.Base.{
  ℤ, pos, Option, none, some, Result, ok, err, failure, ltz, if◌then◌else◌,
}
use starrocks_kubernetes_ope.Base.Results.Fallible.{◌>>=◌, ◌>>◌}
use starrocks_kubernetes_ope.Api.{AutoScalingPolicy, StarRocksCnSpec, validate_component}

check_max : (min_replicas max_replicas : ℤ) → Result (Unit {0})
check_max min_replicas max_replicas =
    if ltz max_replicas min_replicas
    then err (failure "the MaxReplicas must not be smaller than MinReplicas")
    else ok tt

check_replicas : (min_replicas : Option ℤ) (max_replicas : ℤ) → Result (Unit {0})
unfolding check_max
check_replicas none max_replicas = check_max (pos 1) max_replicas
check_replicas (some min_replicas) max_replicas =
    if ltz min_replicas (pos 1)
    then err (failure "the min replicas must not be smaller than 1")
    else check_max min_replicas max_replicas

-- The part on the auto scaling policy.
unfoldable pub validate_policy : Option AutoScalingPolicy → Result (Unit {0})
unfolding check_replicas
validate_policy none = ok tt
validate_policy (some policy) = check_replicas policy.min_replicas policy.max_replicas

-- validating
unfoldable pub validate_cn : StarRocksCnSpec → Result (Unit {0})
unfolding validate_policy validate_component
validate_cn spec = validate_policy spec.auto_scaling_policy >> validate_component spec.component
