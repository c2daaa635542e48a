-- ===== src/Subcontrollers/Instances/Laws.antt =====
-- What SyncCluster of the FE leaves of the cluster at hand: pkg/subcontrollers/fe.
use starrocks_kubernetes_ope.Base.{
  String, ℤ, Option, none, some, Dict, Result, ok, err, panic, refl,
}
use starrocks_kubernetes_ope.Kube.{StatefulSet}
use starrocks_kubernetes_ope.Kube.Client.{Client, Settings}
use starrocks_kubernetes_ope.Api.{
  StarRocksCluster, StarRocksFeSpec, DisasterRecovery, validate_component,
}
use starrocks_kubernetes_ope.Controllers.Cluster.{Local, with_world}
use starrocks_kubernetes_ope.Controllers.Cluster.Keeps.{Same, Keeps, and_then-Same}
use starrocks_kubernetes_ope.K8sutils.Equality.{statefulset_deep_equal, service_deep_equal}
use starrocks_kubernetes_ope.K8sutils.Apply.{apply_statefulset, apply_service}
use starrocks_kubernetes_ope.Subcontrollers.Fe.Config.{get_fe_config}
use starrocks_kubernetes_ope.Subcontrollers.Fe.Recovery.{Recovering, enter_disaster_recovery_mode}
use starrocks_kubernetes_ope.Subcontrollers.Fe.Sync.{
  fe_sync_cluster, fe_sync_given, fe_sync_spec, fe_set, fe_search_service, prepare_given,
  prepare_set, recovered_set, enter_if_due,
}

module _ (c : Client) (settings : Settings) where
  recovered_set-Same :
      {W : Type 0} (l : Local W) (x : Result (Unit {0}) × Recovering)
      → Same l.src (recovered_set l x).1.src
  recovered_set-Same l (ok done, r) = (refl, refl)
  recovered_set-Same l (err e, r) = (refl, refl)
  recovered_set-Same l (panic p, r) = (refl, refl)

  enter_if_due-Same :
      (src : StarRocksCluster) (spec : DisasterRecovery) (sts : StatefulSet) (port : Option ℤ)
      (l : Local c.World)
      → Same l.src (enter_if_due c settings src spec sts port l).1.src
  unfolding enter_if_due
  enter_if_due-Same src spec sts none l = (refl, refl)
  enter_if_due-Same src spec sts (some port) l =
      recovered_set-Same l (enter_disaster_recovery_mode c src spec sts port l.world)

  prepare_given-Keeps :
      (recovery : Option DisasterRecovery) (src : StarRocksCluster) (config : Dict String)
      (sts : StatefulSet)
      → Keeps (prepare_given c settings recovery src config sts)
  unfolding prepare_given
  prepare_given-Keeps none src config sts l = (refl, refl)
  prepare_given-Keeps (some spec) src config sts l = enter_if_due-Same src spec sts _ l

  prepare_set-Keeps :
      (src : StarRocksCluster) (config : Dict String) (sts : StatefulSet)
      → Keeps (prepare_set c settings src config sts)
  unfolding prepare_set
  prepare_set-Keeps src config sts = prepare_given-Keeps src.spec.disaster_recovery src config sts

  fe_set-Keeps :
      (src : StarRocksCluster) (spec : StarRocksFeSpec) (config : Dict String)
      → Keeps (fe_set c settings src spec config)
  unfolding fe_set
  fe_set-Keeps src spec config l = and_then-Same l _ _ (refl, refl) (λ template l'. (refl, refl))

  fe_sync_spec-Keeps :
      (src : StarRocksCluster) (spec : StarRocksFeSpec) → Keeps (fe_sync_spec c settings src spec)
  unfolding fe_sync_spec
  fe_sync_spec-Keeps src spec l =
      and_then-Same l (validate_component spec.component, l) _ (refl, refl)
        (λ valid l1.
          and_then-Same l1 (get_fe_config c src.meta.namespace (some spec) l1.world, l1) _
            (refl, refl)
            (λ config l2.
              and_then-Same l2 (fe_set c settings src spec config l2) _
                (fe_set-Keeps src spec config l2)
                (λ sts l3.
                  and_then-Same l3 (prepare_set c settings src config sts l3) _
                    (prepare_set-Keeps src config sts l3)
                    (λ target l4.
                      and_then-Same l4
                        (with_world l4 (
                          apply_statefulset c target.0 target.1 (statefulset_deep_equal c)
                            l4.world))
                        _ (refl, refl)
                        (λ deployed l5.
                          and_then-Same l5
                            (with_world l5 (
                              apply_service c (fe_search_service c settings src spec config)
                                (service_deep_equal c) l5.world))
                            _ (refl, refl) (λ applied l6. (refl, refl)))))))

  fe_sync_given-Keeps :
      (found : Option StarRocksFeSpec) (src : StarRocksCluster)
      → Keeps (fe_sync_given c settings found src)
  unfolding fe_sync_given
  fe_sync_given-Keeps none src l = (refl, refl)
  fe_sync_given-Keeps (some spec) src l = fe_sync_spec-Keeps src spec l

  pub fe_sync_cluster-Keeps : Keeps (fe_sync_cluster c settings)
  unfolding fe_sync_cluster
  fe_sync_cluster-Keeps l = fe_sync_given-Keeps l.src.spec.fe_spec l.src l
