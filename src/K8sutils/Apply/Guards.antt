-- ===== src/K8sutils/Apply/Guards.antt =====
-- The guard of ApplyStatefulSet on scaling to one replica: pkg/k8sutils/k8sutils.go.
use starrocks_kubernetes_ope.Base.{
  String, Bool, true, false, ok, err, failure, is_some, ◌≡◌, ◌&&◌, ◌<>◌,
}
use starrocks_kubernetes_ope.Kube.{key_of, StatefulSet}
use starrocks_kubernetes_ope.Kube.Client.{Client}
use starrocks_kubernetes_ope.K8sutils.Apply.{apply_statefulset, is_above_one, is_one_or_nil}

module _ (c : Client) (expect : StatefulSet) (equal : StatefulSet → StatefulSet → String × Bool)
    (w : c.World) where
  -- While the caller does not allow it, a running statefulset of more than one replica is never
  -- scaled to one: where the actual object is not being deleted with finalizers, has more than one
  -- replica, and the expected one asks for one or leaves the number out, the call fails with an
  -- error of its own and leaves the world as it is, whatever the comparison says.
  pub apply_statefulset_refuses_scale_to_1 :
      (actual : StatefulSet)
      → c.statefulsets.get (key_of expect.meta) w ≡ ok actual
      → (is_some actual.meta.deletion_timestamp && is_some actual.meta.finalizers) ≡ false
      → is_above_one actual.spec.replicas ≡ true
      → is_one_or_nil expect.spec.replicas ≡ true
      → apply_statefulset c expect false equal w ≡ (
        err (
            failure
              ("the replicas of statefulset " <> expect.meta.name <> " can not be scaled to 1")),
        w,
      )
  unfolding apply_statefulset
  apply_statefulset_refuses_scale_to_1 actual found kept above one = rw (found, kept, above, one)
