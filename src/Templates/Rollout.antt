-- ===== src/Templates/Rollout.antt =====
-- Whether a workload has rolled out: statefulset.Status and deployment.Status of
-- pkg/k8sutils/templates. The subtractions of replica counts wrap around as int32 ones do.
pub mod Laws
use starrocks_kubernetes_ope.Base.{
  String, ℤ, pos, Option, none, some, List, [], ◌∷◌, Bool, true, false, Result, ok, err, failure,
  ltz, eqz, wrap32, ◌-ℤ◌, format_int, if◌then◌else◌, ◌<>◌, ◌&&◌, ◌||◌, not,
}
use starrocks_kubernetes_ope.Kube.{
  StatefulSet, StatefulSetStatus, UpdateStrategy, RollingUpdate, Deployment, DeploymentCondition,
  DeploymentStatus,
}
use text.Mathlib.Text.{◌==◌}

unfoldable sub_int32 : ℤ → ℤ → ℤ
unfolding wrap32
sub_int32 a b = wrap32 (a -ℤ b)

-- The roll out of a set with a rolling update: `partitioned` is the number of pods to update, where
-- the number of replicas and the partition are set.
unfoldable partitioned : Option ℤ → Option ℤ → Option ℤ
unfolding sub_int32
partitioned none _ = none
partitioned (some replicas) none = none
partitioned (some replicas) (some partition) = some (sub_int32 replicas partition)

partitioned_status : ℤ → Option ℤ → String × Bool
unfolding format_int
partitioned_status updated none =
    ("partitioned roll out complete: " <> format_int updated <> " new pods have been updated", true)
partitioned_status updated (some wanted) =
    if ltz updated wanted
    then (
      "Waiting for partitioned roll out to finish: "
          <> format_int updated
          <> " out of "
          <> format_int wanted
          <> " new pods have been updated",
      false,
    )
    else (
      "partitioned roll out complete: " <> format_int updated <> " new pods have been updated",
      true,
    )

-- The revisions of a set with no parameters of the rolling update.
revision_status : StatefulSetStatus → String × Bool
unfolding format_int
revision_status status =
    if not (status.update_revision == status.current_revision)
    then (
      "waiting for statefulset rolling update to complete "
          <> format_int status.updated_replicas
          <> " pods at revision "
          <> status.update_revision,
      false,
    )
    else (
      "statefulset rolling update complete "
          <> format_int status.current_replicas
          <> " pods at revision "
          <> status.current_revision,
      true,
    )

updated_status : StatefulSet → Option RollingUpdate → String × Bool
unfolding partitioned_status revision_status partitioned
updated_status sts none = revision_status sts.status
updated_status sts (some rolling) =
    partitioned_status sts.status.updated_replicas (partitioned sts.spec.replicas rolling.partition)

-- How many of the wanted replicas are not ready, where any are not.
missing : (wanted : Option ℤ) (ready : ℤ) → Option ℤ
unfolding sub_int32
missing none ready = none
missing (some wanted) ready = if ltz ready wanted then some (sub_int32 wanted ready) else none

ready_status : StatefulSet → Option ℤ → String × Bool
unfolding updated_status format_int
ready_status sts none = updated_status sts sts.spec.update_strategy.rolling_update
ready_status sts (some pods) = ("Waiting for " <> format_int pods <> " pods to be ready", false)

-- statefulset.Status, without the second value `true` that goes with the error
unfoldable pub statefulset_status : StatefulSet → Result (String × Bool)
unfolding ready_status missing
statefulset_status sts =
    if not (sts.spec.update_strategy.type == "RollingUpdate")
    then err (failure "rollout status is only available for RollingUpdate strategy type")
    else if eqz sts.status.observed_generation (pos 0)
        || ltz sts.status.observed_generation sts.meta.generation
    then ok ("Waiting for statefulset spec update to be observed", false)
    else ok (ready_status sts (missing sts.spec.replicas sts.status.ready_replicas))

-- GetDeploymentCondition
unfoldable pub get_deployment_condition :
    List DeploymentCondition → String → Option DeploymentCondition
get_deployment_condition [] type = none
get_deployment_condition (c ∷ cs) type =
    if c.type == type then some c else get_deployment_condition cs type

has_timed_out : Option DeploymentCondition → Bool
has_timed_out none = false
has_timed_out (some c) = c.reason == "ProgressDeadlineExceeded"

-- The wanted number of replicas, where fewer are updated.
short_of : (updated : ℤ) → Option ℤ → Option ℤ
short_of updated none = none
short_of updated (some wanted) = if ltz updated wanted then some wanted else none

-- %q of a name, whose letters need no escape
quoted : String → String
quoted name = "\"" <> name <> "\""

progress : Deployment → DeploymentStatus → (wanted : Option ℤ) → String × Bool
unfolding format_int quoted sub_int32
progress deployment status (some wanted) = (
  "Waiting for deployment "
      <> quoted deployment.meta.name
      <> " rollout to finish: "
      <> format_int status.updated_replicas
      <> " out of "
      <> format_int wanted
      <> " new replicas have been updated",
  false,
)
progress deployment status none =
    let waiting =
      "Waiting for deployment " <> quoted deployment.meta.name <> " rollout to finish: " in
    if ltz status.updated_replicas status.replicas
    then (
      waiting
          <> format_int (sub_int32 status.replicas status.updated_replicas)
          <> " old replicas are pending termination",
      false,
    )
    else if ltz status.available_replicas status.updated_replicas
    then (
      waiting
          <> format_int status.available_replicas
          <> " of "
          <> format_int status.updated_replicas
          <> " updated replicas are available",
      false,
    )
    else ("deployment " <> quoted deployment.meta.name <> " successfully rolled out", true)

observed_status : Deployment → DeploymentStatus → Result (String × Bool)
unfolding get_deployment_condition has_timed_out short_of progress quoted
observed_status deployment status =
    if has_timed_out (get_deployment_condition status.conditions "Progressing")
    then err (
        failure ("deployment " <> quoted deployment.meta.name <> " exceeded its progress deadline"))
    else ok (progress deployment status (short_of status.updated_replicas deployment.spec.replicas))

-- deployment.Status
unfoldable pub deployment_status : Deployment → Result (String × Bool)
unfolding observed_status
deployment_status deployment =
    if ltz deployment.status.observed_generation deployment.meta.generation
    then ok ("Waiting for deployment spec update to be observed", false)
    else observed_status deployment deployment.status
