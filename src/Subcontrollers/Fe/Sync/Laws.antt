-- ===== src/Subcontrollers/Fe/Sync/Laws.antt =====
-- When SyncCluster of the FE refuses to deploy: pkg/subcontrollers/fe/fe_controller.go.
use starrocks_kubernetes_ope.Base.{
  String, Option, none, some, Dict, true, false, ok, err, failure, is_some, ◌≡◌, ◌&&◌, ◌<>◌, refl,
}
use starrocks_kubernetes_ope.Kube.{StatefulSet, key_of}
use starrocks_kubernetes_ope.Kube.Client.{Client, Settings}
use starrocks_kubernetes_ope.Api.{
  StarRocksCluster, StarRocksFeSpec, DisasterRecovery, validate_component,
}
use starrocks_kubernetes_ope.Controllers.Cluster.{Local}
use starrocks_kubernetes_ope.K8sutils.Apply.{is_above_one, is_one_or_nil}
use starrocks_kubernetes_ope.K8sutils.Apply.Guards.{apply_statefulset_refuses_scale_to_1}
use starrocks_kubernetes_ope.K8sutils.Equality.{statefulset_deep_equal}
use starrocks_kubernetes_ope.Subcontrollers.Fe.Config.{get_fe_config}
use starrocks_kubernetes_ope.Subcontrollers.Fe.Recovery.{should_enter_disaster_recovery_mode}
use starrocks_kubernetes_ope.Subcontrollers.Fe.Sync.{
  fe_sync_cluster, fe_sync_given, fe_sync_spec, fe_set, prepare_given, prepare_set, enter_if_due,
}

module _ (c : Client) (settings : Settings) where
  prepare_given-idle :
      (recovery : Option DisasterRecovery) (src : StarRocksCluster) (config : Dict String)
      (sts : StatefulSet) (l : Local c.World)
      → should_enter_disaster_recovery_mode recovery src.status.disaster_recovery_status config
        ≡ none
      → prepare_given c settings recovery src config sts l ≡ (ok (sts, false), l)
  unfolding prepare_given enter_if_due
  prepare_given-idle none src config sts l idle = refl
  prepare_given-idle (some spec) src config sts l idle = rw idle refl

  -- Outside of disaster recovery, SyncCluster never scales a running FE of more than one replica to
  -- one: where the set to deploy asks for one replica or leaves the number out, and the one on the
  -- server has more and is not being deleted with finalizers, it fails with an error that says so,
  -- and leaves the cluster and the world as they are, the services included.
  pub fe_sync_cluster_refuses_scale_to_1 :
      (l : Local c.World) (spec : StarRocksFeSpec) (config : Dict String) (sts actual : StatefulSet)
      → l.src.spec.fe_spec ≡ some spec
      → validate_component spec.component ≡ ok tt
      → get_fe_config c l.src.meta.namespace (some spec) l.world ≡ ok config
      → should_enter_disaster_recovery_mode l.src.spec.disaster_recovery
          l.src.status.disaster_recovery_status config
        ≡ none
      → fe_set c settings l.src spec config l ≡ (ok sts, l)
      → c.statefulsets.get (key_of sts.meta) l.world ≡ ok actual
      → (is_some actual.meta.deletion_timestamp && is_some actual.meta.finalizers) ≡ false
      → is_above_one actual.spec.replicas ≡ true
      → is_one_or_nil sts.spec.replicas ≡ true
      → fe_sync_cluster c settings l ≡ (
        err (
            failure ("the replicas of statefulset " <> sts.meta.name <> " can not be scaled to 1")),
        l,
      )
  unfolding fe_sync_cluster fe_sync_given fe_sync_spec prepare_set
  fe_sync_cluster_refuses_scale_to_1 l spec config sts actual given valid configured idle built
        found kept above one =
      simp
        (
          given,
          valid,
          configured,
          built,
          prepare_given-idle l.src.spec.disaster_recovery l.src config sts l idle,
          apply_statefulset_refuses_scale_to_1 c sts (statefulset_deep_equal c) l.world actual found
              kept above one,
        )
        refl
