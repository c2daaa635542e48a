-- ===== src/Templates/Workloads.antt =====
-- The builders of stateful sets and deployments: pkg/k8sutils/templates/statefulset/spec.go and
-- pkg/k8sutils/templates/deployment/spec.go.
pub mod Laws
use starrocks_kubernetes_ope.Base.{
  String, ℤ, pos, Option, none, some, List, [], ◌∷◌, Bool, true, false, Result, ok, err, panic,
  has_prefix, ltz, if◌then◌else◌, not,
}
use starrocks_kubernetes_ope.Base.Results.Fallible.{◌>>=◌}
use starrocks_kubernetes_ope.Kube.{
  Raw, ObjectMeta, OwnerReference, PersistentVolumeClaim, StatefulSet, StatefulSetStatus,
  UpdateStrategy, RetentionPolicy, Deployment, PodTemplateSpec,
}
use starrocks_kubernetes_ope.Kube.Client.{Client}
use starrocks_kubernetes_ope.Api.{
  StorageVolume, special_storage_class_name, Spec, fe_spec, be_spec, cn_spec, fe_proxy_spec,
  kind_of, load_of, StarRocksComponentSpec, StarRocksCluster, get_replicas, get_update_strategy,
  get_pod_management_policy, get_min_ready_seconds,
}
use starrocks_kubernetes_ope.Templates.Names.{
  StarRocksObject, ObjectKind, cluster_kind, warehouse_kind, load_name, load_labels, load_selector,
  search_service_name,
}
use text.Mathlib.Text.{◌==◌}

-- Whether a volume is left out of the claims.
unfoldable pub has_no_claim : StorageVolume → Bool
unfolding special_storage_class_name has_prefix
has_no_claim v =
    if not (special_storage_class_name v == "") then true else has_prefix v.storage_size "0"

abbrev claim : StorageVolume → Option Raw → PersistentVolumeClaim
claim v storage = record {
  name = v.name;
  access_modes = "ReadWriteOnce" ∷ [];
  storage_class_name = v.storage_class_name;
  storage = storage;
}

-- metav1.NewControllerRef
abbrev pub controller_ref : (api_version kind : String) → ObjectMeta → OwnerReference
controller_ref api_version kind meta = record {
  api_version = api_version;
  kind = kind;
  name = meta.name;
  uid = meta.uid;
}

abbrev pub new_meta :
    (name namespace : String) → List (String × String) → List OwnerReference → ObjectMeta
new_meta name namespace labels owners = record {
  name = name;
  namespace = namespace;
  uid = "";
  labels = labels;
  annotations = none;
  finalizers = none;
  owner_references = owners;
  resource_version = "";
  generation = pos 0;
  deletion_timestamp = none;
}

abbrev no_statefulset_status : StatefulSetStatus
no_statefulset_status = record {
  observed_generation = pos 0;
  replicas = pos 0;
  ready_replicas = pos 0;
  current_replicas = pos 0;
  updated_replicas = pos 0;
  current_revision = "";
  update_revision = "";
}

-- STARROCKS_WAREHOUSE_FINALIZER, on the set of a warehouse
abbrev warehouse_finalizers : ObjectKind → Option (List String)
warehouse_finalizers cluster_kind = none
warehouse_finalizers warehouse_kind = some ("starrocks.com.starrockswarehouse/protection" ∷ [])

positive_or_zero : Option ℤ → ℤ
positive_or_zero none = pos 0
positive_or_zero (some n) = if ltz (pos 0) n then n else pos 0

deletion_policy : Option RetentionPolicy → Option RetentionPolicy
deletion_policy none = none
deletion_policy (some policy) =
    some (record { when_deleted = policy.when_deleted; when_scaled = "" })

-- The FE and the BE keep the claims when they are scaled, whatever the specification says.
retention_policy_of : Spec → Option RetentionPolicy
unfolding deletion_policy
retention_policy_of (fe_spec s) = deletion_policy s.retention_policy
retention_policy_of (be_spec s) = deletion_policy s.retention_policy
retention_policy_of (cn_spec s) = s.retention_policy
retention_policy_of (fe_proxy_spec s) = none

-- The set with its update strategy and its claims.
unfoldable pub statefulset_of :
    StarRocksObject
    → Spec
    → PodTemplateSpec
    → UpdateStrategy
    → List PersistentVolumeClaim
    → StatefulSet
unfolding load_name load_labels load_selector search_service_name get_replicas
    get_pod_management_policy get_min_ready_seconds positive_or_zero retention_policy_of
statefulset_of object spec template strategy claims = record {
  meta =
      record (new_meta (load_name object.sub_resource_prefix_name (kind_of spec))
        object.meta.namespace (load_labels object.sub_resource_prefix_name (kind_of spec))
        (controller_ref object.api_version object.type_kind object.meta ∷ [])) {
          annotations = some [];
          finalizers = warehouse_finalizers object.kind;
        };
  spec = record {
    replicas = get_replicas spec;
    selector = some (load_selector object.sub_resource_prefix_name (kind_of spec));
    template = template;
    volume_claim_templates = claims;
    service_name = search_service_name object.sub_resource_prefix_name (kind_of spec);
    pod_management_policy = get_pod_management_policy spec;
    update_strategy = strategy;
    min_ready_seconds = positive_or_zero (get_min_ready_seconds spec);
    retention_policy = retention_policy_of spec;
  };
  status = no_statefulset_status;
}

-- `*p`
abbrev pub dereferenced : {A : Type 0} → Option A → Result A
dereferenced none = panic "nil pointer"
dereferenced (some a) = ok a

module _ (c : Client) where
  claim_of : StorageVolume → Result PersistentVolumeClaim
  claim_of v =
      if v.storage_size == ""
      then ok (claim v none)
      else (c.parse_quantity v.storage_size >>= λ quantity. ok (claim v (some quantity)))

  -- PVCList
  unfoldable pub pvc_list : List StorageVolume → Result (List PersistentVolumeClaim)
  unfolding has_no_claim claim_of
  pvc_list [] = ok []
  pvc_list (v ∷ vs) =
      let rest = pvc_list vs in
      if has_no_claim v
      then rest
      else (claim_of v >>= λ claim. rest >>= λ claims. ok (claim ∷ claims))

  -- MakeStatefulset
  unfoldable pub make_statefulset : StarRocksObject → Spec → PodTemplateSpec → Result StatefulSet
  unfolding get_update_strategy pvc_list statefulset_of
  make_statefulset object spec template = do
    strategy ← dereferenced (get_update_strategy spec)
    claims ← pvc_list (load_of spec).storage_volumes
    ok (statefulset_of object spec template strategy claims)

-- MakeDeployment
unfoldable pub make_deployment : StarRocksCluster → Spec → PodTemplateSpec → Deployment
unfolding load_name load_labels load_selector get_replicas
make_deployment cluster spec template = record {
  meta =
      record (new_meta (load_name cluster.meta.name (kind_of spec)) cluster.meta.namespace
        (load_labels cluster.meta.name (kind_of spec))
        (controller_ref cluster.api_version cluster.kind cluster.meta ∷ [])) {
          annotations = some [];
        };
  spec = record {
    replicas = get_replicas spec;
    selector = load_selector cluster.meta.name (kind_of spec);
    template = template;
  };
  status = record {
    observed_generation = pos 0;
    replicas = pos 0;
    updated_replicas = pos 0;
    available_replicas = pos 0;
    conditions = [];
  };
}
