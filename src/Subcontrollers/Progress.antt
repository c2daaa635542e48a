-- ===== src/Subcontrollers/Progress.antt =====
-- The status of the components of a cluster: UpdateClusterStatus of the FE and BE sub-controllers,
-- UpdateClusterStatus and UpdateStatus of the CN's,
-- pkg/subcontrollers/{fe/fe_controller.go,be/be_controller.go,cn/cn_controller.go}.
-- The operations only read the world; their errors keep what they have written to the cluster.
use starrocks_kubernetes_ope.Base.{
  String, ℤ, pos, Option, none, some, [], ◌∷◌, Dict, Result, ok, err, panic, or_else, is_not_found,
  if◌then◌else◌,
}
use starrocks_kubernetes_ope.Kube.{StatefulSet}
use starrocks_kubernetes_ope.Kube.Client.{Client, Settings}
use starrocks_kubernetes_ope.K8sutils.Merge.{merge_slices}
use starrocks_kubernetes_ope.Api.{
  SpecKind, fe, be, cn, component_reconciling, StarRocksComponentStatus, StarRocksCluster,
  StarRocksCnStatus, StarRocksBeSpec, StarRocksCnSpec, AutoScalingPolicy, version_unset,
  complete_version,
}
use starrocks_kubernetes_ope.Templates.Names.{
  StarRocksObject, load_name, external_service_name, new_from_cluster,
}
use starrocks_kubernetes_ope.Templates.Pods.{labels_of_pods}
use starrocks_kubernetes_ope.Controllers.Warehouse.{new_status}
use starrocks_kubernetes_ope.Subcontrollers.Clear.{auto_scaler_name}
use starrocks_kubernetes_ope.Subcontrollers.Status.{update_status, stateful_set_load_type}

-- A component's status with the phase Reconciling and nothing else.
abbrev pub new_component_status : StarRocksComponentStatus
new_component_status = record {
  service_name = "";
  failed_instances = [];
  creating_instances = [];
  running_instances = [];
  resource_names = [];
  phase = component_reconciling;
  reason = "";
}

-- The names that a status carries.
named : SpecKind → (prefix : String) → StarRocksComponentStatus → StarRocksComponentStatus
unfolding external_service_name load_name merge_slices
named kind prefix status = record status {
  service_name = external_service_name prefix kind;
  resource_names = merge_slices status.resource_names (load_name prefix kind ∷ []);
}

module _ (c : Client) (w : c.World) where
  statefulset_of : SpecKind → (namespace prefix : String) → Result StatefulSet
  unfolding load_name
  statefulset_of kind namespace prefix =
      c.statefulsets.get (record { namespace = namespace; name = load_name prefix kind }) w

  judged :
      SpecKind
      → (namespace prefix : String) → (pod_labels : Dict String) → StarRocksComponentStatus
      → Result (Unit {0}) × StarRocksComponentStatus
  unfolding update_status load_name labels_of_pods
  judged kind namespace prefix pod_labels status =
      update_status c namespace (load_name prefix kind) (labels_of_pods prefix kind pod_labels)
        stateful_set_load_type w status

  abbrev with_fe : StarRocksCluster → StarRocksComponentStatus → StarRocksCluster
  with_fe src status = record src { status = record (src.status) { fe_status = some status } }

  -- The last Get of the FE's UpdateClusterStatus, whose object is not used.
  last_get : Result (Unit {0}) → Result StatefulSet → Result (Unit {0})
  last_get (ok done) (ok sts) = ok tt
  last_get (ok done) (err e) = err e
  last_get (ok done) (panic p) = panic p
  last_get failed _ = failed

  -- UpdateClusterStatus of the FE
  unfoldable pub fe_update_cluster_status : StarRocksCluster → Result (Unit {0}) × StarRocksCluster
  unfolding judged named last_get statefulset_of
  fe_update_cluster_status src = elim src.spec.fe_spec [
    | none ↦ (ok tt, record src { status = record (src.status) { fe_status = none } })
    | some spec ↦
        let (r, status) =
          judged fe src.meta.namespace src.meta.name spec.pod_labels
            (named fe src.meta.name (or_else src.status.fe_status new_component_status)) in
        (last_get r (statefulset_of fe src.meta.namespace src.meta.name), with_fe src status)
  ]

  abbrev with_be : StarRocksCluster → StarRocksComponentStatus → StarRocksCluster
  with_be src status = record src { status = record (src.status) { be_status = some status } }

  unfoldable pub be_status_of :
      StarRocksCluster
      → StarRocksBeSpec
      → StarRocksComponentStatus
      → Result StatefulSet
      → Result (Unit {0}) × StarRocksCluster
  unfolding judged named
  be_status_of src spec status (ok sts) =
      let (r, judged_status) =
        judged be src.meta.namespace src.meta.name spec.pod_labels
          (named be src.meta.name status) in
      (r, with_be src judged_status)
  be_status_of src spec status (err e) =
      (if is_not_found e then ok tt else err e, with_be src status)
  be_status_of src spec status (panic p) = (panic p, with_be src status)

  unfoldable pub be_status_given :
      Option StarRocksBeSpec → StarRocksCluster → Result (Unit {0}) × StarRocksCluster
  unfolding be_status_of statefulset_of
  be_status_given none src =
      (ok tt, record src { status = record (src.status) { be_status = none } })
  be_status_given (some spec) src =
      be_status_of src spec (or_else src.status.be_status new_component_status)
        (statefulset_of be src.meta.namespace src.meta.name)

  -- UpdateClusterStatus of the BE
  unfoldable pub be_update_cluster_status : StarRocksCluster → Result (Unit {0}) × StarRocksCluster
  unfolding be_status_given
  be_update_cluster_status src = be_status_given src.spec.be_spec src

-- An operation on the CN's status, for a cluster or a warehouse; the selector's text is what
-- LabelSelectorAsSelector and String of the library yield.
module _ (c : Client) (settings : Settings) (selector_text : Option (Dict String) → Result String)
    (w : c.World) where
  abbrev scaled :
      Option AutoScalingPolicy → (prefix : String) → StarRocksCnStatus → StarRocksCnStatus
  scaled none prefix status = record status {
    horizontal_scaler = record { name = ""; version = version_unset };
  }
  scaled (some policy) prefix status = record status {
    horizontal_scaler = record {
      name = auto_scaler_name c prefix;
      version =
          complete_version policy.version settings.kube_major_version settings.kube_minor_version;
    };
  }

  -- What UpdateStatus writes for the stateful set that it has got; that of a failed Get is empty.
  cn_status_of :
      StarRocksObject
      → StarRocksCnSpec
      → (sts_replicas : ℤ) → Result String
      → StarRocksCnStatus
      → Result (Unit {0}) × StarRocksCnStatus
  unfolding named judged
  cn_status_of object spec replicas (err e) status =
      let named_status = scaled spec.auto_scaling_policy object.sub_resource_prefix_name status in
      (
        err e,
        record named_status {
          component = named cn object.sub_resource_prefix_name named_status.component;
          replicas = replicas;
        },
      )
  cn_status_of object spec replicas (panic p) status = (panic p, status)
  cn_status_of object spec replicas (ok selector) status =
      let named_status = scaled spec.auto_scaling_policy object.sub_resource_prefix_name status in
      let (r, component) =
        judged c w cn object.meta.namespace object.sub_resource_prefix_name spec.pod_labels
          (named cn object.sub_resource_prefix_name named_status.component) in
      (r, record named_status { component = component; replicas = replicas; selector = selector })

  cn_status_found :
      StarRocksObject
      → StarRocksCnSpec
      → StarRocksCnStatus
      → Result StatefulSet
      → Result (Unit {0}) × StarRocksCnStatus
  unfolding cn_status_of
  cn_status_found object spec status (ok sts) =
      cn_status_of object spec sts.status.replicas (selector_text sts.spec.selector) status
  cn_status_found object spec status (err e) =
      if is_not_found e
      then (ok tt, status)
      else cn_status_of object spec (pos 0) (selector_text none) status
  cn_status_found object spec status (panic p) = (panic p, status)

  -- UpdateStatus of the CN
  unfoldable pub cn_update_status :
      StarRocksObject → StarRocksCnSpec → StarRocksCnStatus → Result (Unit {0}) × StarRocksCnStatus
  unfolding cn_status_found statefulset_of
  cn_update_status object spec status =
      cn_status_found object spec status
        (statefulset_of c w cn object.meta.namespace object.sub_resource_prefix_name)

  reconciling : Option StarRocksCnStatus → StarRocksCnStatus
  reconciling status =
      let current = or_else status new_status in
      record current { component = record (current.component) { phase = component_reconciling } }

  -- UpdateClusterStatus of the CN
  unfoldable pub cn_update_cluster_status : StarRocksCluster → Result (Unit {0}) × StarRocksCluster
  unfolding cn_update_status new_from_cluster reconciling
  cn_update_cluster_status src = elim src.spec.cn_spec [
    | none ↦ (ok tt, record src { status = record (src.status) { cn_status = none } })
    | some spec ↦
        let (r, status) =
          cn_update_status (new_from_cluster src) spec (reconciling src.status.cn_status) in
        (r, record src { status = record (src.status) { cn_status = some status } })
  ]
