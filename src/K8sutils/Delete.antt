-- ===== src/K8sutils/Delete.antt =====
-- The deletions of pkg/k8sutils/k8sutils.go.
pub mod Laws
use starrocks_kubernetes_ope.Base.{
  String, pos, none, [], Option, some, Result, ok, err, panic, is_not_found, if◌then◌else◌,
}
use starrocks_kubernetes_ope.Base.Results.Stateful.{M, ◌>>=◌, pure, fail, read, try}
use starrocks_kubernetes_ope.Kube.{
  Key, ObjectMeta, HpaVersion, hpa_v2, hpa_v2beta2, HorizontalPodAutoscaler,
}
use starrocks_kubernetes_ope.Kube.Client.{Client, Store, Settings}
use starrocks_kubernetes_ope.Api.{AutoScalerVersion, auto_scaler_v2, auto_scaler_v2beta2, empty_hpa}

abbrev at : (namespace name : String) → Key
at namespace name = record { namespace = namespace; name = name }

-- An object that is not found is deleted already.
abbrev pub delete_found : {S A : Type 0} → (A → M S (Unit {0})) → Result A → M S (Unit {0})
delete_found delete (ok object) = delete object
delete_found delete (err e) = if is_not_found e then pure tt else fail e
delete_found delete (panic p) = read (λ _. panic p)

abbrev delete_from : {W A : Type 0} → Store W A → (namespace name : String) → M W (Unit {0})
delete_from store namespace name = do
  found ← try (read (store.get (at namespace name)))
  delete_found store.delete found

-- What `&autoscaling….HorizontalPodAutoscaler{}` holds before a Get has filled it.
abbrev pub unfilled_hpa : HpaVersion → HorizontalPodAutoscaler
unfilled_hpa version = record {
  version = version;
  meta = record {
    name = "";
    namespace = "";
    uid = "";
    labels = [];
    annotations = none;
    finalizers = none;
    owner_references = [];
    resource_version = "";
    generation = pos 0;
    deletion_timestamp = none;
  };
  target = ("", "", "");
  min_replicas = none;
  max_replicas = pos 0;
  metrics = [];
  behavior = none;
}

-- The version that is asked for after an error.
abbrev pub other_version : AutoScalerVersion → AutoScalerVersion
other_version auto_scaler_v2beta2 = auto_scaler_v2
other_version _ = auto_scaler_v2beta2

module _ (c : Client) where
  -- DeleteStatefulset
  unfoldable pub delete_statefulset : (namespace name : String) → M c.World (Unit {0})
  delete_statefulset = delete_from c.statefulsets

  -- DeleteService
  unfoldable pub delete_service : (namespace name : String) → M c.World (Unit {0})
  delete_service = delete_from c.services

  -- DeleteDeployment
  unfoldable pub delete_deployment : (namespace name : String) → M c.World (Unit {0})
  delete_deployment = delete_from c.deployments

  -- DeleteConfigMap
  unfoldable pub delete_config_map : (namespace name : String) → M c.World (Unit {0})
  delete_config_map = delete_from c.config_maps

  -- The Get of an HPA of some version into an empty object; that of no version is a nil object.
  unfoldable pub get_hpa_of : Option HpaVersion → Key → c.World → Result HorizontalPodAutoscaler
  get_hpa_of none key w = panic "nil object"
  get_hpa_of (some v) key w = c.get_hpa v key w

  unfilled_of : Option HpaVersion → M c.World HorizontalPodAutoscaler
  unfilled_of none = read (λ _. panic "nil object")
  unfilled_of (some v) = pure (unfilled_hpa v)

  -- The first Get failed: ask for the other version, and then delete the object that the first Get
  -- was to fill.
  delete_after_error :
      Settings → AutoScalerVersion → (namespace name : String) → M c.World (Unit {0})
  unfolding empty_hpa get_hpa_of unfilled_of
  delete_after_error settings version namespace name = do
    let major = settings.kube_major_version
    let minor = settings.kube_minor_version
    again ←
        try (read (get_hpa_of (empty_hpa (other_version version) major minor) (at namespace name)))
    delete_found (λ _. do hpa ← unfilled_of (empty_hpa version major minor); c.delete_hpa hpa) again

  delete_hpa_found :
      Settings
      → AutoScalerVersion
      → (namespace name : String) → Result HorizontalPodAutoscaler
      → M c.World (Unit {0})
  unfolding delete_after_error
  delete_hpa_found settings version namespace name (ok hpa) = c.delete_hpa hpa
  delete_hpa_found settings version namespace name (err e) =
      if is_not_found e then pure tt else delete_after_error settings version namespace name
  delete_hpa_found settings version namespace name (panic p) = read (λ _. panic p)

  -- DeleteAutoscaler
  unfoldable pub delete_autoscaler :
      Settings → (namespace name : String) → AutoScalerVersion → M c.World (Unit {0})
  unfolding delete_hpa_found empty_hpa get_hpa_of
  delete_autoscaler settings namespace name version = do
    found ← try (
        read (
          get_hpa_of (empty_hpa version settings.kube_major_version settings.kube_minor_version)
            (at namespace name)))
    delete_hpa_found settings version namespace name found
