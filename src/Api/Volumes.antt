-- ===== src/Api/Volumes.antt =====
-- StorageVolume and its validation: pkg/apis/starrocks/v1/starrockscluster_types.go, and
-- SpecialStorageClassName of pkg/k8sutils/templates/pod/mount.go, which reads the same fields.
use starrocks_kubernetes_ope.Base.{
  String, Option, none, some, is_some, Bool, false, Result, ok, err, sentinel,
  err_host_path_required, err_csi_required, err_csi_conflict, err_csi_storage_class, codes,
  same_codes, to_lower, if◌then◌else◌, ◌&&◌, not,
}
use starrocks_kubernetes_ope.Base.Results.Fallible.{◌>>◌}
use starrocks_kubernetes_ope.Kube.{HostPathVolumeSource, CsiVolumeSource}
use text.Mathlib.Text.{◌==◌}

pub record StorageVolume : Type 0 where
  pub name : String
  pub storage_class_name : Option String
  pub storage_size : String
  pub host_path : Option HostPathVolumeSource
  pub csi : Option CsiVolumeSource
  pub mount_path : String
  pub sub_path : String
  pub read_only : Bool

-- common.EqualsIgnoreCase
unfoldable pub equals_ignore_case : String → String → Bool
unfolding to_lower
equals_ignore_case a b = same_codes (to_lower (codes a)) (to_lower (codes b))

abbrev pub class_is_csi : Option String → Bool
class_is_csi none = false
class_is_csi (some class) = equals_ignore_case class "csi"

abbrev pub has_driver : Option CsiVolumeSource → Bool
has_driver none = false
has_driver (some csi) = not (csi.driver == "")

abbrev pub has_path : Option HostPathVolumeSource → Bool
has_path none = false
has_path (some host_path) = not (host_path.path == "")

-- (storageVolume *StorageVolume) validateCSI
unfoldable pub validate_csi : StorageVolume → Result (Unit {0})
validate_csi v =
    if not (class_is_csi v.storage_class_name) && not (is_some v.csi)
    then ok tt
    else if is_some v.csi && is_some v.host_path
    then err (sentinel err_csi_conflict)
    else if not (class_is_csi v.storage_class_name) && is_some v.storage_class_name
    then err (sentinel err_csi_storage_class)
    else if not (has_driver v.csi)
    then err (sentinel err_csi_required)
    else ok tt

abbrev pub validate_host_path : Option String → Option HostPathVolumeSource → Result (Unit {0})
validate_host_path (some class) host_path =
    if class == "hostPath"
    then if has_path host_path then ok tt else err (sentinel err_host_path_required)
    else ok tt
validate_host_path none none = ok tt
validate_host_path none (some host_path) =
    if host_path.path == "" then err (sentinel err_host_path_required) else ok tt

-- (storageVolume *StorageVolume) Validate
unfoldable pub validate_volume : StorageVolume → Result (Unit {0})
unfolding validate_csi
validate_volume v = do validate_csi v; validate_host_path v.storage_class_name v.host_path

abbrev pub special_of_class : String → String
special_of_class class =
    if equals_ignore_case class "emptyDir"
    then "emptyDir"
    else if equals_ignore_case class "hostPath"
    then "hostPath"
    else if equals_ignore_case class "csi"
    then "csi"
    else ""

abbrev pub special_of_source : Bool → Bool → String
special_of_source has_host_path has_csi =
    if has_host_path then "hostPath" else if has_csi then "csi" else ""

-- SpecialStorageClassName
unfoldable pub special_storage_class_name : StorageVolume → String
special_storage_class_name v = elim v.storage_class_name [
  | some class ↦ special_of_class class
  | none ↦ special_of_source (is_some v.host_path) (is_some v.csi)
]
