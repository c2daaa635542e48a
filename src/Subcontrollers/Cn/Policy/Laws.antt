-- ===== src/Subcontrollers/Cn/Policy/Laws.antt =====
-- What a valid auto scaling policy guarantees: pkg/subcontrollers/cn/cn_controller.go.
use starrocks_kubernetes_ope.Base.{pos, some, ok, ◌≤ℤ◌, ◌≡◌, ◌↔◌, arith, or_else}
use starrocks_kubernetes_ope.Api.{AutoScalingPolicy}
use starrocks_kubernetes_ope.Subcontrollers.Cn.Policy.{validate_policy, check_replicas, check_max}

-- A policy is accepted exactly when its least number of replicas, 1 where none is given, is at least
-- 1 and at most the greatest number.
pub validate_policy_iff :
    (policy : AutoScalingPolicy)
    → (validate_policy (some policy) ≡ ok tt) ↔ (
        (pos 1 ≤ℤ or_else policy.min_replicas (pos 1))
        × (or_else policy.min_replicas (pos 1) ≤ℤ policy.max_replicas))
unfolding validate_policy check_replicas check_max
validate_policy_iff policy = ground arith
