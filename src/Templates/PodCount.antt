-- ===== src/Templates/PodCount.antt =====
-- The pods of a component: pkg/k8sutils/templates/pod/status.go, and PodIsReady of
-- pkg/k8sutils/k8sutils.go.
pub mod Laws
use starrocks_kubernetes_ope.Base.{
  String, List, [], ◌∷◌, Bool, true, false, any, if◌then◌else◌, Dict, insert, ◌&&◌, not,
}
use starrocks_kubernetes_ope.Kube.{
  Pod, PodPhase, pod_pending, pod_running, PodStatus, ContainerStatus,
}

all_ready : List ContainerStatus → Bool
all_ready [] = true
all_ready (c ∷ cs) = if not c.ready then false else all_ready cs

-- PodIsReady
unfoldable pub pod_is_ready : PodStatus → Bool
unfolding all_ready
pod_is_ready status = elim status.container_statuses [ [] ↦ false | c ∷ cs ↦ all_ready (c ∷ cs) ]

is_starting : PodPhase → Bool
is_starting pod_running = true
is_starting pod_pending = true
is_starting _ = false

-- The three lists of names that Count yields.
pub record PodCounts : Type 0 where
  pub creating : List String
  pub ready : List String
  pub failed : List String

-- pod.Count; a pod is put in front of those after it, which is the order of the appends
unfoldable pub count_pods : List Pod → PodCounts
unfolding pod_is_ready is_starting
count_pods [] = record { creating = []; ready = []; failed = [] }
count_pods (pod ∷ pods) =
    let rest = count_pods pods in
    if pod_is_ready pod.status
    then record rest { ready = pod.meta.name ∷ rest.ready }
    else if is_starting pod.status.phase
    then record rest { creating = pod.meta.name ∷ rest.creating }
    else record rest { failed = pod.meta.name ∷ rest.failed }

-- The reasons of pod.Status; a later pod of the same name takes the place of an earlier one.
unfoldable pub pod_reasons : List Pod → Dict String → Dict String
unfolding insert
pod_reasons [] reasons = reasons
pod_reasons (pod ∷ pods) reasons = pod_reasons pods (insert pod.meta.name pod.status.reason reasons)
