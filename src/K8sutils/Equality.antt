-- ===== src/K8sutils/Equality.antt =====
-- The hashes by which objects are compared, and the comparisons: pkg/common/resource_utils
-- (service.go, statefulset.go), and the comparison of config maps in pkg/k8sutils/k8sutils.go.
use starrocks_kubernetes_ope.Base.{
  String, ℤ, negsuc, Option, List, [], Bool, true, Dict, get_text, length, eqb, or_else, ◌&&◌, ◌∷◌,
}
use starrocks_kubernetes_ope.Kube.{
  annotation, Service, ServicePort, StatefulSet, PodTemplateSpec, PersistentVolumeClaim,
  UpdateStrategy, RetentionPolicy, ConfigMap,
}
use starrocks_kubernetes_ope.Kube.Client.{Client}
use text.Mathlib.Text.{◌==◌}

abbrev pub component_resource_hash : String
component_resource_hash = "app.starrocks.components/hash"

-- hashService
pub record HashService : Type 0 where
  pub name : String
  pub namespace : String
  pub finalizers : Option (List String)
  pub ports : List ServicePort
  pub selector : Dict String
  pub service_type : String
  pub labels : Dict String
  pub annotations : Option (Dict String)
  pub load_balancer_source_ranges : Option (List String)
  pub external_traffic_policy : String

-- serviceHashObject
unfoldable pub service_hash_object : Service → HashService
service_hash_object svc = record {
  name = svc.meta.name;
  namespace = svc.meta.namespace;
  finalizers = svc.meta.finalizers;
  ports = svc.spec.ports;
  selector = svc.spec.selector;
  service_type = svc.spec.type;
  labels = svc.meta.labels;
  annotations = svc.meta.annotations;
  load_balancer_source_ranges = svc.spec.load_balancer_source_ranges;
  external_traffic_policy = svc.spec.external_traffic_policy;
}

-- hashStatefulsetObject
pub record HashStatefulSetObject : Type 0 where
  pub name : String
  pub namespace : String
  pub labels : Dict String
  pub finalizers : Option (List String)
  pub selector : Dict String
  pub pod_template : PodTemplateSpec
  pub service_name : String
  pub volume_claim_templates : List PersistentVolumeClaim
  pub replicas : ℤ
  pub update_strategy : UpdateStrategy
  pub retention_policy : Option RetentionPolicy
  pub min_ready_seconds : ℤ

-- statefulSetHashObject: -1 replicas stand for nil
unfoldable pub statefulset_hash_object : StatefulSet → HashStatefulSetObject
statefulset_hash_object sts = record {
  name = sts.meta.name;
  namespace = sts.meta.namespace;
  labels = sts.meta.labels;
  finalizers = sts.meta.finalizers;
  selector = or_else sts.spec.selector [];
  pod_template = sts.spec.template;
  service_name = sts.spec.service_name;
  volume_claim_templates = sts.spec.volume_claim_templates;
  replicas = or_else sts.spec.replicas (negsuc 0);
  update_strategy = sts.spec.update_strategy;
  retention_policy = sts.spec.retention_policy;
  min_ready_seconds = sts.spec.min_ready_seconds;
}

module _ (c : Client) where
  -- The recorded hash, or the computed one where none is recorded.
  pub service_hash : Service → String
  unfolding service_hash_object
  service_hash svc =
      or_else (annotation component_resource_hash svc.meta)
        (c.hash_object HashService (service_hash_object svc))

  pub statefulset_hash : StatefulSet → String
  unfolding statefulset_hash_object
  statefulset_hash sts =
      or_else (annotation component_resource_hash sts.meta)
        (c.hash_object HashStatefulSetObject (statefulset_hash_object sts))

  -- ServiceDeepEqual
  unfoldable pub service_deep_equal : (expect actual : Service) → String × Bool
  unfolding service_hash
  service_deep_equal expect actual =
      let hash = service_hash expect in
      (hash, hash == service_hash actual && expect.meta.namespace == actual.meta.namespace)

  -- StatefulSetDeepEqual
  unfoldable pub statefulset_deep_equal : (expect actual : StatefulSet) → String × Bool
  unfolding statefulset_hash
  statefulset_deep_equal expect actual =
      let hash = statefulset_hash expect in
      (hash, hash == statefulset_hash actual && expect.meta.namespace == actual.meta.namespace)

all_values_in : Dict String → Dict String → Bool
unfolding get_text
all_values_in [] actual = true
all_values_in ((k, v) ∷ m) actual = get_text k actual == v && all_values_in m actual

-- `equal` of ApplyConfigMap
unfoldable pub config_map_equal : (expect actual : ConfigMap) → Bool
unfolding all_values_in
config_map_equal expect actual =
    eqb (length expect.contents) (length actual.contents)
    && all_values_in expect.contents actual.contents
