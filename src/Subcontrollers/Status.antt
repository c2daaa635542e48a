-- ===== src/Subcontrollers/Status.antt =====
-- The status of a component: UpdateStatus of pkg/subcontrollers/subcontroller.go.
pub mod Laws
use starrocks_kubernetes_ope.Base.{
  String, List, [], ◌∷◌, Dict, get_text, Bool, true, false, Result, ok, err, panic,
}
use starrocks_kubernetes_ope.Kube.{Key, Pod}
use starrocks_kubernetes_ope.Kube.Client.{Client}
use starrocks_kubernetes_ope.Api.{
  ComponentPhase, component_reconciling, component_failed, component_running,
  StarRocksComponentStatus,
}
use starrocks_kubernetes_ope.Templates.Rollout.{statefulset_status, deployment_status}
use starrocks_kubernetes_ope.Templates.PodCount.{PodCounts, count_pods, pod_reasons}

pub data LoadType : Type 0 where
  deployment_load_type stateful_set_load_type : LoadType

-- The answer on the status of the workload, an error of the Get included.
abbrev pub Rollout : Type 0
Rollout = Result (String × Bool)

finish : StarRocksComponentStatus → Rollout → Result (Unit {0}) × StarRocksComponentStatus
finish status (ok (reason, true)) =
    (ok tt, record status { phase = component_running; reason = "" })
finish status (ok (reason, false)) =
    (ok tt, record status { phase = component_reconciling; reason = reason })
finish status (err e) = (err e, record status { phase = component_reconciling })
finish status (panic p) = (panic p, record status { phase = component_reconciling })

-- The status that the pods and the workload give.
unfoldable pub judge :
    StarRocksComponentStatus
    → PodCounts
    → (reasons : Dict String) → Rollout
    → Result (Unit {0}) × StarRocksComponentStatus
unfolding finish get_text
judge status counts reasons rollout = elim counts.failed [
  | name ∷ _ ↦ (ok tt, record status { phase = component_failed; reason = get_text name reasons })
  | [] ↦ elim counts.creating [
    | name ∷ _ ↦
        (ok tt, record status { phase = component_reconciling; reason = get_text name reasons })
    | [] ↦ finish status rollout
  ]
]

listed :
    StarRocksComponentStatus
    → Rollout
    → Result (List Pod)
    → Result (Unit {0}) × StarRocksComponentStatus
unfolding judge count_pods pod_reasons
listed status rollout (err e) = (err e, status)
listed status rollout (panic p) = (panic p, status)
listed status rollout (ok pods) =
    let counts = count_pods pods in
    judge
      (record status {
        running_instances = counts.ready;
        failed_instances = counts.failed;
        creating_instances = counts.creating;
      })
      counts (pod_reasons pods []) rollout

abbrev after : {A : Type 0} → Result A → (A → Rollout) → Rollout
after (ok a) f = f a
after (err e) f = err e
after (panic p) f = panic p

module _ (c : Client) where
  unfoldable pub rollout_of : LoadType → Key → c.World → Rollout
  unfolding statefulset_status deployment_status
  rollout_of deployment_load_type key w = after (c.deployments.get key w) deployment_status
  rollout_of stateful_set_load_type key w = after (c.statefulsets.get key w) statefulset_status

  -- UpdateStatus, which changes the status in place and only reads the world
  unfoldable pub update_status :
      (namespace name : String)
      → (pod_labels : Dict String) → LoadType
      → c.World
      → StarRocksComponentStatus
      → Result (Unit {0}) × StarRocksComponentStatus
  unfolding listed rollout_of
  update_status namespace name pod_labels load_type w status =
      listed status (rollout_of load_type (record { namespace = namespace; name = name }) w)
        (c.list_pods namespace pod_labels w)
