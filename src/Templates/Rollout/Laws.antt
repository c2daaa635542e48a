-- ===== src/Templates/Rollout/Laws.antt =====
-- When statefulset.Status and deployment.Status say that a workload has rolled out.
use starrocks_kubernetes_ope.Base.{
  String, ℤ, pos, Option, none, some, Bool, true, false, Result, ok, ◌≤ℤ◌, ◌≡◌, ◌≢◌,
}
use starrocks_kubernetes_ope.Kube.{StatefulSet, RollingUpdate, Deployment, DeploymentStatus}
use starrocks_kubernetes_ope.Templates.Rollout.{
  partitioned, get_deployment_condition, has_timed_out,
}

-- The answer is neither an error nor "not yet".
abbrev pub is_done : Result (String × Bool) → Bool
is_done (ok (reason, done)) = done
is_done _ = false

-- At least the wanted number, where one is set.
abbrev pub HasReached : ℤ → Option ℤ → Type 0
HasReached n none = Unit {0}
HasReached n (some wanted) = wanted ≤ℤ n

-- The updated pods suffice: all but the partition, or the current revision where nothing is said of
-- partitions.
abbrev pub IsUpdated : StatefulSet → Option RollingUpdate → Type 0
IsUpdated sts none = sts.status.update_revision ≡ sts.status.current_revision
IsUpdated sts (some rolling) =
    HasReached sts.status.updated_replicas (partitioned sts.spec.replicas rolling.partition)

unfoldable pub IsRolledOut : StatefulSet → Type 0
IsRolledOut sts =
    (sts.spec.update_strategy.type ≡ "RollingUpdate")
    × (sts.status.observed_generation ≢ pos 0)
    × (sts.meta.generation ≤ℤ sts.status.observed_generation)
    × HasReached sts.status.ready_replicas sts.spec.replicas
    × IsUpdated sts sts.spec.update_strategy.rolling_update

-- The first condition of the type Progressing says that the deadline has passed.
abbrev HasTimedOut : DeploymentStatus → Type 0
HasTimedOut status = has_timed_out (get_deployment_condition status.conditions "Progressing") ≡ true

pub IsDeployed : Deployment → Type 0
IsDeployed deployment =
    let status = deployment.status in
    (deployment.meta.generation ≤ℤ status.observed_generation)
    × (¬ HasTimedOut status)
    × HasReached status.updated_replicas deployment.spec.replicas
    × (status.replicas ≤ℤ status.updated_replicas)
    × (status.updated_replicas ≤ℤ status.available_replicas)
