-- ===== src/K8sutils/Apply.antt =====
-- ApplyService, ApplyDeployment, ApplyConfigMap and ApplyStatefulSet: pkg/k8sutils/k8sutils.go.
pub mod Guards
pub mod Twice
use starrocks_kubernetes_ope.Base.{
  String, ℤ, pos, Option, none, some, Bool, true, false, Result, ok, err, panic, Error, failure,
  is_not_found, is_some, ltz, eqz, or_else, if◌then◌else◌, ◌<>◌, ◌&&◌, ◌||◌, not,
}
use starrocks_kubernetes_ope.Base.Results.Stateful.{M, ◌>>=◌, ◌>>◌, pure, fail, read, try}
use starrocks_kubernetes_ope.Kube.{
  key_of, annotation, annotate, Service, service_access, Deployment, deployment_access, ConfigMap,
  config_map_access, StatefulSet, statefulset_access,
}
use starrocks_kubernetes_ope.Kube.Client.{Client, Pointer, address_of}
use starrocks_kubernetes_ope.K8sutils.Objects.{create_client_object, patch_by_three_way_merge}
use starrocks_kubernetes_ope.K8sutils.Equality.{component_resource_hash, config_map_equal}
use text.Mathlib.Text.{◌==◌}

-- What follows a Get: create the object where it is not found, else go on with the actual one.
abbrev pub create_or : {S A B : Type 0} → M S B → (A → M S B) → Result A → M S B
create_or create go_on (ok actual) = go_on actual
create_or create go_on (err e) = if is_not_found e then create else fail e
create_or create go_on (panic p) = read (λ _. panic p)

module _ (c : Client) where
  patch_service : (expect actual : Service) → String → M c.World (Unit {0})
  unfolding annotate
  patch_service expect actual hash =
      let versioned = record expect {
        meta = record (expect.meta) { resource_version = actual.meta.resource_version };
      } in
      patch_by_three_way_merge c service_access c.services
        (record versioned { meta = annotate component_resource_hash hash versioned.meta }) actual

  update_service :
      (Service → Service → String × Bool) → (expect actual : Service) → M c.World (Unit {0})
  unfolding patch_service
  update_service equal expect actual =
      let (hash, same) = equal expect actual in
      if same then pure tt else patch_service expect actual hash

  -- ApplyService
  unfoldable pub apply_service :
      (expect : Service) → (Service → Service → String × Bool) → M c.World (Unit {0})
  unfolding update_service
  apply_service expect equal = do
    found ← try (read (c.services.get (key_of expect.meta)))
    create_or (do _ ← create_client_object c service_access c.services expect; pure tt)
        (update_service equal expect) found

  update_deployment : (deploy actual : Deployment) → M c.World (Unit {0})
  unfolding annotate annotation
  update_deployment deploy actual =
      let expect_hash = c.hash_object (Pointer Deployment) (address_of deploy) in
      let actual_hash =
        or_else (annotation component_resource_hash actual.meta)
          (c.hash_object Deployment actual) in
      let versioned = record deploy {
        meta = record (deploy.meta) { resource_version = actual.meta.resource_version };
      } in
      if expect_hash == actual_hash
      then pure tt
      else patch_by_three_way_merge c deployment_access c.deployments
          (record versioned { meta = annotate component_resource_hash expect_hash versioned.meta })
          actual

  -- ApplyDeployment
  unfoldable pub apply_deployment : Deployment → M c.World (Unit {0})
  unfolding update_deployment
  apply_deployment deploy = do
    found ← try (read (c.deployments.get (key_of deploy.meta)))
    create_or (do _ ← create_client_object c deployment_access c.deployments deploy; pure tt)
        (update_deployment deploy) found

  -- ApplyConfigMap
  unfoldable pub apply_config_map : ConfigMap → M c.World (Unit {0})
  unfolding config_map_equal
  apply_config_map expect = do
    found ← try (read (c.config_maps.get (key_of expect.meta)))
    create_or (do _ ← create_client_object c config_map_access c.config_maps expect; pure tt)
        (λ actual.
          if not (config_map_equal expect actual) then c.config_maps.update expect else pure tt)
        found

-- `replicas == nil || *replicas == 1`, and `replicas != nil && *replicas > 1`
abbrev pub is_one_or_nil : Option ℤ → Bool
is_one_or_nil none = true
is_one_or_nil (some n) = eqz n (pos 1)

abbrev pub is_above_one : Option ℤ → Bool
is_above_one none = false
is_above_one (some n) = ltz (pos 1) n

-- The fields of the actual statefulset that the expected one takes over.
unfoldable pub adopt : (expect actual : StatefulSet) → StatefulSet
adopt expect actual = record expect {
  spec = record (expect.spec) {
    pod_management_policy =
        if actual.spec.pod_management_policy == "OrderedReady"
        then "OrderedReady"
        else expect.spec.pod_management_policy;
    service_name = actual.spec.service_name;
  };
}

module _ (c : Client) where
  -- An assignment to the nil map of annotations would panic; MakeStatefulset always makes one.
  patch_statefulset : (expect actual : StatefulSet) → String → M c.World StatefulSet
  unfolding annotate
  patch_statefulset expect actual hash = elim expect.meta.annotations [
    | none ↦ read (λ _. panic "assignment to entry in nil map")
    | some _ ↦
        let annotated = record expect {
          meta = record (annotate component_resource_hash hash expect.meta) {
            resource_version = actual.meta.resource_version;
          };
        } in
        do
          patch_by_three_way_merge c statefulset_access c.statefulsets annotated actual
          pure annotated
  ]

  update_statefulset :
      Bool
      → (StatefulSet → StatefulSet → String × Bool)
      → (expect actual : StatefulSet) → M c.World StatefulSet
  unfolding adopt patch_statefulset
  update_statefulset enable_scale_to_1 equal expect actual =
      let released = record actual { meta = record (actual.meta) { finalizers = none } } in
      if is_some actual.meta.deletion_timestamp && is_some actual.meta.finalizers
      then (c.statefulsets.update released >> pure expect)
      else if not enable_scale_to_1
          && is_above_one actual.spec.replicas
          && is_one_or_nil expect.spec.replicas
      then fail (
          failure ("the replicas of statefulset " <> expect.meta.name <> " can not be scaled to 1"))
      else let adopted = adopt expect actual in
        let (hash, same) = equal adopted actual in
        if same then pure adopted else patch_statefulset adopted actual hash

  -- ApplyStatefulSet; the result is `expect` as it is left
  unfoldable pub apply_statefulset :
      (expect : StatefulSet) (enable_scale_to_1 : Bool)
      → (StatefulSet → StatefulSet → String × Bool)
      → M c.World StatefulSet
  unfolding update_statefulset
  apply_statefulset expect enable_scale_to_1 equal = do
    found ← try (read (c.statefulsets.get (key_of expect.meta)))
    create_or (create_client_object c statefulset_access c.statefulsets expect)
        (update_statefulset enable_scale_to_1 equal expect) found
