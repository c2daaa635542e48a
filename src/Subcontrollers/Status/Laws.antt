-- ===== src/Subcontrollers/Status/Laws.antt =====
-- What the phases of a component mean: UpdateStatus of pkg/subcontrollers/subcontroller.go.
use starrocks_kubernetes_ope.Base.{
  String, List, [], ◌∷◌, Dict, Bool, true, false, Result, ok, err, panic, ◌≡◌, arith,
}
use starrocks_kubernetes_ope.Kube.{Pod}
use starrocks_kubernetes_ope.Kube.Client.{Client}
use starrocks_kubernetes_ope.Api.{
  ComponentPhase, component_reconciling, component_failed, component_running,
  StarRocksComponentStatus,
}
use starrocks_kubernetes_ope.Templates.Rollout.Laws.{is_done}
use starrocks_kubernetes_ope.Templates.PodCount.{PodCounts, count_pods, pod_reasons}
use starrocks_kubernetes_ope.Subcontrollers.Status.{
  LoadType, Rollout, judge, finish, listed, update_status, rollout_of,
}

-- The phase that lists of pods and a roll out call for.
abbrev pub phase_of : PodCounts → (done : Bool) → ComponentPhase
phase_of counts done = elim counts.failed [
  | _ ∷ _ ↦ component_failed
  | [] ↦ elim counts.creating [
    | _ ∷ _ ↦ component_reconciling
    | [] ↦ elim done [ true ↦ component_running | false ↦ component_reconciling ]
  ]
]

-- The answer that lists of pods and a roll out call for: pods that have failed or are being created
-- come first, so that an error on the roll out is not seen.
abbrev pub answer_of : PodCounts → Rollout → Result (Unit {0})
answer_of counts rollout = elim counts.failed [
  | _ ∷ _ ↦ ok tt
  | [] ↦ elim counts.creating [
    | _ ∷ _ ↦ ok tt
    | [] ↦ elim rollout [ ok _ ↦ ok tt | err e ↦ err e | panic p ↦ panic p ]
  ]
]

judge-phase :
    (status : StarRocksComponentStatus) (counts : PodCounts) (reasons : Dict String)
    (rollout : Rollout)
    → ((judge status counts reasons rollout).0 ≡ answer_of counts rollout)
      × ((judge status counts reasons rollout).1.phase ≡ phase_of counts (is_done rollout))
unfolding judge finish
judge-phase status counts reasons (ok (reason, done)) = ground arith
judge-phase status counts reasons (err e) = ground arith
judge-phase status counts reasons (panic p) = ground arith

-- After a List that succeeds, the phase is Failed exactly where some pod has failed, else
-- Reconciling where some pod is being created or the workload is not known to have rolled out, else
-- Running. The answer is an error or a panic exactly where no pod has failed or is being created and
-- the look at the roll out ends in it: its Get fails, the strategy of a stateful set is not
-- RollingUpdate, the deadline of a deployment has passed.
pub update_status-phase :
    (c : Client) (namespace name : String) (labels : Dict String) (load_type : LoadType)
    (w : c.World) (status : StarRocksComponentStatus) (pods : List Pod)
    → c.list_pods namespace labels w ≡ ok pods
    → let rollout = rollout_of c load_type (record { namespace = namespace; name = name }) w in
      ((update_status c namespace name labels load_type w status).0
        ≡ answer_of (count_pods pods) rollout)
      × ((update_status c namespace name labels load_type w status).1.phase
          ≡ phase_of (count_pods pods) (is_done rollout))
unfolding update_status listed
update_status-phase c namespace name labels load_type w status pods on_list = rw on_list (
    judge-phase
      (record status {
        running_instances = (count_pods pods).ready;
        failed_instances = (count_pods pods).failed;
        creating_instances = (count_pods pods).creating;
      })
      (count_pods pods) (pod_reasons pods [])
      (rollout_of c load_type (record { namespace = namespace; name = name }) w))
