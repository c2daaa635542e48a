-- ===== src/Subcontrollers/Cn/AutoScaler.antt =====
-- deployAutoScaler of pkg/subcontrollers/cn/cn_controller.go.
pub mod Laws
use starrocks_kubernetes_ope.Base.{
  String, none, some, [], ◌∷◌, Dict, insert, or_else, Result, ok, err, panic, is_not_found,
  if◌then◌else◌,
}
use starrocks_kubernetes_ope.Base.Results.Stateful.{M, ◌>>=◌, pure, fail, read, try}
use starrocks_kubernetes_ope.Kube.{
  Key, key_of, annotation, annotate, HorizontalPodAutoscaler, OwnerReference,
}
use starrocks_kubernetes_ope.Kube.Client.{Client, Settings, Pointer, address_of}
use starrocks_kubernetes_ope.Api.{AutoScalingPolicy, AutoScalerVersion, version_unset, empty_hpa}
use starrocks_kubernetes_ope.K8sutils.Apply.{create_or}
use starrocks_kubernetes_ope.K8sutils.Autoscaler.{HpaParams, build_hpa}
use starrocks_kubernetes_ope.K8sutils.Delete.{get_hpa_of}
use starrocks_kubernetes_ope.K8sutils.Equality.{component_resource_hash}
use starrocks_kubernetes_ope.Templates.Names.{StarRocksObject, owner_reference, component_label_key}
use starrocks_kubernetes_ope.Templates.Workloads.{controller_ref}
use starrocks_kubernetes_ope.Subcontrollers.Clear.{auto_scaler_name}
use text.Mathlib.Text.{◌==◌}

module _ (c : Client) (settings : Settings) where
  hpa_params : StarRocksObject → AutoScalingPolicy → HpaParams
  unfolding insert auto_scaler_name
  hpa_params object policy = record {
    version = policy.version;
    name = auto_scaler_name c object.sub_resource_prefix_name;
    namespace = object.meta.namespace;
    labels = insert owner_reference object.meta.name (insert component_label_key "autoscaler" []);
    owner = controller_ref object.api_version object.type_kind object.meta;
    policy = policy;
  }

  with_no_annotations : HorizontalPodAutoscaler → HorizontalPodAutoscaler
  with_no_annotations hpa = record hpa { meta = record (hpa.meta) { annotations = some [] } }

  -- The autoscaler that is deployed, with an empty map of annotations.
  unfoldable pub expected_hpa : StarRocksObject → AutoScalingPolicy → HorizontalPodAutoscaler
  unfolding build_hpa hpa_params with_no_annotations
  expected_hpa object policy =
      with_no_annotations (build_hpa settings (hpa_params object policy) version_unset)

  unfoldable pub hpa_hash : HorizontalPodAutoscaler → String
  hpa_hash hpa = c.hash_object (Pointer HorizontalPodAutoscaler) (address_of hpa)

  -- The autoscaler with its hash recorded, as it is written by an update.
  unfoldable pub hashed_hpa : HorizontalPodAutoscaler → HorizontalPodAutoscaler
  unfolding annotate hpa_hash
  hashed_hpa hpa = record hpa { meta = annotate component_resource_hash (hpa_hash hpa) hpa.meta }

  -- What follows a Get that has found an autoscaler.
  unfoldable update_hpa_found : (expect actual : HorizontalPodAutoscaler) → M c.World (Unit {0})
  unfolding hpa_hash annotation hashed_hpa
  update_hpa_found expect actual =
      if hpa_hash expect
        == or_else (annotation component_resource_hash actual.meta) (hpa_hash actual)
      then pure tt
      else c.update_hpa (hashed_hpa expect)

  -- The Get of an autoscaler of the version that the policy leads to.
  unfoldable pub get_expected_hpa :
      StarRocksObject → AutoScalingPolicy → c.World → Result HorizontalPodAutoscaler
  unfolding empty_hpa get_hpa_of expected_hpa
  get_expected_hpa object policy =
      get_hpa_of c
        (empty_hpa policy.version settings.kube_major_version settings.kube_minor_version)
        (key_of (expected_hpa object policy).meta)

  -- deployAutoScaler
  unfoldable pub deploy_auto_scaler : StarRocksObject → AutoScalingPolicy → M c.World (Unit {0})
  unfolding expected_hpa get_expected_hpa update_hpa_found
  deploy_auto_scaler object policy = do
    found ← try (read (get_expected_hpa object policy))
    create_or (c.create_hpa (expected_hpa object policy))
        (update_hpa_found (expected_hpa object policy)) found
